-- ===== src/Worker/Synchronizer/Author.antt =====
-- The `Synchronize` messages of primary/src/header_waiter.rs where they arrive: at the worker of the author
-- of the header, in worker/src/synchronizer.rs.
use sailfish_test.Prelude.{
  ℕ, ◌≡◌, refl, ◌∙◌, sym, ap, subst, inl, inr, List, [], ◌∷◌, ◌++◌, true, false, some, arith,
  contains, All, Option-cases, some_inj, append_assoc, append_nil, ==_refl, get-Memᴰ, contains_key,
}
use sailfish_test.Crypto.{Digest, PublicKey}
use sailfish_test.Config.{Committee, WorkerId, SocketAddr, worker}
use sailfish_test.Messages.{Header}
use sailfish_test.HeaderWaiter
use mathlib.Core.List.{Memᴰ}
use sailfish_test.HeaderWaiter.Batches.{Requests, Syncs, IsWanted, request_batches_lem}
use sailfish_test.HeaderWaiter.{
  HeaderWaiter, sync_batches, send_synchronize, worker_address, add_waiter,
}
use sailfish_test.Worker.Synchronizer.{Synchronizer, synchronize}
use sailfish_test.Worker.Synchronizer.Found.{is_absent}
use sailfish_test.Worker.Synchronizer.Missing.{synchronize_lem, Sent}

-- A message to a worker of the author, that names the author as the one to ask: all that it asks for are
-- missing batches of the worker that were not requested before.
abbrev pub IsToAuthor :
    Committee → PublicKey → List (Digest × WorkerId) → Requests → HeaderWaiter.Output → Type 0
IsToAuthor c author missing before (HeaderWaiter.synchronize address ds target) =
    (target ≡ author)
    × (w : WorkerId) × (worker_address (worker c author w) ≡ some address)
    × IsWanted missing before (w, ds)
IsToAuthor c author missing before _ = ⊥

-- Some message asks for a digest.
abbrev pub IsAskedIn : List HeaderWaiter.Output → Digest → Type 0
IsAskedIn outs d =
    (address : SocketAddr) × (ds : List Digest) × (target : PublicKey) × Memᴰ
      (HeaderWaiter.synchronize address ds target) outs
    × (contains ds d ≡ true)

asked-cons :
    (a : SocketAddr) (ds : List Digest) (author : PublicKey) (w : WorkerId) (rs : Syncs)
    (outs : List HeaderWaiter.Output)
    → ((v : WorkerId) (es : List Digest) (d : Digest)
        → Memᴰ (v, es) rs
        → contains es d ≡ true
        → IsAskedIn outs d)
    → (v : WorkerId) (es : List Digest) (d : Digest) → Memᴰ (v, es) ((w, ds) ∷ rs)
    → contains es d ≡ true
    → IsAskedIn (HeaderWaiter.synchronize a ds author ∷ outs) d
asked-cons a ds author w rs outs rest v es d (Memᴰ.head e) c =
    (a, ds, author, Memᴰ.head refl, subst (λ t. contains t d ≡ true) (ap (λ t. t.1) e) c)
asked-cons a ds author w rs outs rest v es d (Memᴰ.tail m) c =
    let (address, fs, target, there, cf) = rest v es d m c in
    (address, fs, target, Memᴰ.tail there, cf)

-- One message for each worker, in their order.
send_synchronize-sent :
    (author : PublicKey) (missing : List (Digest × WorkerId)) (before : Requests) (rs : Syncs)
    (s s' : HeaderWaiter)
    → All (IsWanted missing before) rs
    → send_synchronize author rs s ≡ some s'
    → (outs : List HeaderWaiter.Output) × (s'.sent ≡ s.sent ++ outs)
      × All (IsToAuthor s.committee author missing before) outs
      × ((w : WorkerId) (ds : List Digest) (d : Digest)
          → Memᴰ (w, ds) rs
          → contains ds d ≡ true
          → IsAskedIn outs d)
unfolding send_synchronize
send_synchronize-sent author missing before [] s s' h e =
    ([], ap (λ t. t.sent) (sym (some_inj e)) ∙ sym (append_nil s.sent), tt, λ w ds d m. elim m [ ])
send_synchronize-sent author missing before ((w, ds) ∷ rs) s s' h e =
    elim (Option-cases (worker_address (worker s.committee author w))) [
      | inl stranger ↦ cc
      | inr (a, found) ↦
          let o = HeaderWaiter.synchronize a ds author in
          let (outs, eo, all, asked) =
            send_synchronize-sent author missing before rs (record s { sent = s.sent ++ o ∷ [] }) s'
              h.1 (ground (arith, e, found)) in
          (
            o ∷ outs,
            eo ∙ append_assoc s.sent (o ∷ []) outs,
            ((refl, w, found, h.0), all),
            asked-cons a ds author w rs outs asked,
          )
    ]

none_asked : (missing : List Digest) → ((d : Digest) → contains missing d ≡ false) → missing ≡ []
none_asked [] h = refl
none_asked (x ∷ xs) h = absurd (ground (arith, h x, ==_refl x))

asks_nothing :
    (now : ℕ) (ds : List Digest) (target : PublicKey) (t : Synchronizer)
    → ((d : Digest) → contains ds d ≡ true → is_absent t.store d ≡ false)
    → Sent (worker t.committee target t.id) [] t (synchronize now ds target t).sent
asks_nothing now ds target t stored =
    let (found, q, sent) = synchronize_lem now ds target t in
    subst (λ l. Sent (worker t.committee target t.id) l t (synchronize now ds target t).sent)
      (none_asked found (λ d. q.asked d ∙ ground (arith, stored d))) sent

-- For missing batches the header waiter sends messages only to workers of the author of the header, and
-- names the author as the one to ask. Together they ask for exactly the missing batches that were not
-- requested before, each at the worker that it is listed under. A worker of the author that has all
-- batches of a message, as the one that made them has, finds none of them missing: what it asks others
-- for is nothing.
pub sync_batches-author :
    (missing : List (Digest × WorkerId)) (h : Header) (s s' : HeaderWaiter)
    → sync_batches missing h s ≡ some s'
    → (outs : List HeaderWaiter.Output) × (s'.sent ≡ s.sent ++ outs)
      × All (IsToAuthor s.committee h.author missing s.batch_requests) outs
      × ((d : Digest) (w : WorkerId)
          → Memᴰ (d, w) missing
          → contains_key d s.batch_requests ≡ false
          → IsAskedIn outs d)
      × ((address : SocketAddr) (ds : List Digest) (target : PublicKey)
          → Memᴰ (HeaderWaiter.synchronize address ds target) outs
          → (now : ℕ) (t : Synchronizer)
          → ((d : Digest) → contains ds d ≡ true → is_absent t.store d ≡ false)
          → Sent (worker t.committee target t.id) [] t (synchronize now ds target t).sent)
unfolding sync_batches add_waiter
sync_batches-author missing h s s' e =
    let (wanted, asked) = request_batches_lem h.round missing s.batch_requests in
    let (outs, eo, all, sent) =
      send_synchronize-sent h.author missing s.batch_requests _ _ s' wanted e in
    (
      outs,
      eo,
      all,
      λ d w m fresh.
          let (v, ds, there, c) = asked d w m fresh in sent v ds d (get-Memᴰ v ds _ there) c,
      λ address ds target m now t stored. asks_nothing now ds target t stored,
    )
