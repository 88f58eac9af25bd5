-- ===== src/HeaderWaiter/Pending.antt =====
-- The pending headers of primary/src/header_waiter.rs and their waiters.
use sailfish_test.Prelude.{
  contains_key-insert, ℕ, ◌≡◌, refl, ◌∙◌, sym, subst, inl, inr, List, [], ◌∷◌, ◌++◌, map, Bool,
  true, false, Option, none, some, arith, ◌==◌, ltb, if◌then◌else◌, contains_key, keys, get_elem?,
  Distinct, Distinct-keys-insert, Distinct-keys-retain, Bool-cases, Option-cases, ==→eq, some_inj,
}
use sailfish_test.Crypto.{Digest, PublicKey}
use sailfish_test.Config.{Committee, WorkerId, worker}
use sailfish_test.Messages.{Round, Header}
use sailfish_test.HeaderWaiter.{
  HeaderWaiter, Waiter, Event, batches_missing, parents_missing, arrived, was_cancelled,
  storage_failed, timer, spawn, add_waiter, Missing, batch, parent, worker_address, then_clean_up,
  synchronize, send_synchronize, sync_batches, sync_parents, take_waiter, deliver_header, retry,
  collect, clean_up, step, run,
}
use sailfish_test.HeaderWaiter.Waiters.{
  live, live-append, live-cancel, live-take_waiter, live-cancel_old, contains_key-recent,
  contains_key-remove, Distinct-keys-remove,
}

-- Each pending header has one live waiter, and no other header has any.
pub record IsPaired (s : HeaderWaiter) : Type 0 where
  pub distinct : Distinct (keys s.pending)
  pub paired : (id : Digest) → live id s.waiting ≡ (if contains_key id s.pending then 1 else 0)

add_waiter-IsPaired :
    (ms : List Missing) (h : Header) (s : HeaderWaiter)
    → IsPaired s
    → contains_key h.id s.pending ≡ false
    → IsPaired (add_waiter ms h s)
unfolding add_waiter
add_waiter-IsPaired ms h s q new = record {
  distinct = Distinct-keys-insert h.id h.round s.pending q.distinct;
  paired = λ id.
      live-append id s.waiting (record { wait_for = ms; deliver = h; cancelled = false } ∷ [])
      ∙ ground (
        arith,
        q.paired id,
        contains_key-insert h.id id h.round s.pending,
        new,
        λ (e : (h.id == id) ≡ true).
            subst (λ i. contains_key i s.pending ≡ false) (==→eq h.id id e) new,
      );
}

deliver_header-IsPaired :
    (i : ℕ) (w : Waiter) (s : HeaderWaiter)
    → IsPaired s
    → get_elem? s.waiting i ≡ some w
    → IsPaired (deliver_header w.deliver (record s { waiting = take_waiter i s.waiting }))
unfolding deliver_header
deliver_header-IsPaired i w s q e = record {
  distinct = Distinct-keys-remove w.deliver.id s.pending q.distinct;
  paired = λ id.
      live-cancel w.deliver.id id (take_waiter i s.waiting)
      ∙ ground (
        arith,
        q.paired id,
        live-take_waiter id i s.waiting w e,
        contains_key-remove w.deliver.id id s.pending q.distinct,
      );
}

collect-IsPaired : (g : Round) (s : HeaderWaiter) → IsPaired s → IsPaired (collect g s)
unfolding collect
collect-IsPaired g s q = record {
  distinct = Distinct-keys-retain (λ e. ltb g e.1) s.pending q.distinct;
  paired = λ id.
      live-cancel_old g id s.pending s.waiting
      ∙ ground (arith, q.paired id, contains_key-recent g id s.pending q.distinct);
}

clean_up-IsPaired : (round : Round) (s : HeaderWaiter) → IsPaired s → IsPaired (clean_up round s)
unfolding clean_up
clean_up-IsPaired round s q = if-IsPaired (ltb s.gc_depth round) _ s (collect-IsPaired _ s q) q
  where
    if-IsPaired :
        (b : Bool) (s t : HeaderWaiter) → IsPaired s → IsPaired t → IsPaired (if b then s else t)
    if-IsPaired true s t p q = p
    if-IsPaired false s t p q = q

same-IsPaired :
    (s s' : HeaderWaiter)
    → IsPaired s
    → s'.pending ≡ s.pending
    → s'.waiting ≡ s.waiting
    → IsPaired s'
same-IsPaired s s' q a b = record {
  distinct = subst (λ m. Distinct (keys m)) (sym a) q.distinct;
  paired = λ id. ground (arith, a, b, q.paired id);
}

send_synchronize-frame :
    (author : PublicKey) (rs : List (WorkerId × List Digest)) (s s' : HeaderWaiter)
    → send_synchronize author rs s ≡ some s'
    → (s'.pending ≡ s.pending) × (s'.waiting ≡ s.waiting)
unfolding send_synchronize
send_synchronize-frame author [] s s' e = ground (arith, some_inj e)
send_synchronize-frame author ((w, ds) ∷ rs) s s' e =
    elim (Option-cases (worker_address (worker s.committee author w))) [
      | inl stranger ↦ cc
      | inr (a, found) ↦
          send_synchronize-frame author rs
            (record s { sent = s.sent ++ synchronize a ds author ∷ [] }) s'
            (ground (arith, e, found))
    ]

sync_batches-IsPaired :
    (missing : List (Digest × WorkerId)) (h : Header) (s s' : HeaderWaiter)
    → IsPaired s
    → contains_key h.id s.pending ≡ false
    → sync_batches missing h s ≡ some s'
    → IsPaired s'
unfolding sync_batches
sync_batches-IsPaired missing h s s' q new e =
    let f = send_synchronize-frame h.author _ _ s' e in
    same-IsPaired _ s' (add_waiter-IsPaired (map (λ e. batch e.0 e.1) missing) h s q new) f.0 f.1

sync_parents-frame :
    (now : ℕ) (missing : List Digest) (h : Header) (s s' : HeaderWaiter)
    → sync_parents now missing h s ≡ some s'
    → (s'.pending ≡ (add_waiter (map parent missing) h s).pending)
      × (s'.waiting ≡ (add_waiter (map parent missing) h s).waiting)
unfolding sync_parents
sync_parents-frame now missing h s s' e = ground arith

sync_parents-IsPaired :
    (now : ℕ) (missing : List Digest) (h : Header) (s s' : HeaderWaiter)
    → IsPaired s
    → contains_key h.id s.pending ≡ false
    → sync_parents now missing h s ≡ some s'
    → IsPaired s'
sync_parents-IsPaired now missing h s s' q new e =
    let f = sync_parents-frame now missing h s s' e in
    same-IsPaired _ s' (add_waiter-IsPaired (map parent missing) h s q new) f.0 f.1

then_clean_up-IsPaired :
    (round : Round) (o : Option HeaderWaiter) (s' : HeaderWaiter)
    → ((t : HeaderWaiter) → o ≡ some t → IsPaired t)
    → then_clean_up round o ≡ some s'
    → IsPaired s'
then_clean_up-IsPaired round none s' f e = cc
then_clean_up-IsPaired round (some t) s' f e =
    subst IsPaired (some_inj e) (clean_up-IsPaired round t (f t refl))

take_cancelled-IsPaired :
    (i : ℕ) (w : Waiter) (s : HeaderWaiter)
    → IsPaired s
    → get_elem? s.waiting i ≡ some w
    → w.cancelled ≡ true
    → IsPaired (record s { waiting = take_waiter i s.waiting })
take_cancelled-IsPaired i w s q e c = record {
  distinct = q.distinct;
  paired = λ id. ground (arith, q.paired id, live-take_waiter id i s.waiting w e, c);
}

step-IsPaired :
    (round : Round) (e : Event) (s s' : HeaderWaiter)
    → IsPaired s
    → step round e s ≡ some s'
    → IsPaired s'
unfolding step retry
step-IsPaired round (batches_missing missing h) s s' q e =
    elim (Bool-cases (contains_key h.id s.pending)) [
      | inl old ↦ subst IsPaired (some_inj (ground (arith, old))) q
      | inr new ↦
          then_clean_up-IsPaired round (sync_batches missing h s) s'
            (λ t. sync_batches-IsPaired missing h s t q new) (ground (arith, new))
    ]
step-IsPaired round (parents_missing now missing h) s s' q e =
    elim (Bool-cases (contains_key h.id s.pending)) [
      | inl old ↦ subst IsPaired (some_inj (ground (arith, old))) q
      | inr new ↦
          then_clean_up-IsPaired round (sync_parents now missing h s) s'
            (λ t. sync_parents-IsPaired now missing h s t q new) (ground (arith, new))
    ]
step-IsPaired round (arrived i) s s' q e = elim (Option-cases (get_elem? s.waiting i)) [
  | inl gone ↦ subst IsPaired (some_inj (ground (arith, gone))) q
  | inr (w, there) ↦
      subst IsPaired (some_inj (ground (arith, there)))
        (clean_up-IsPaired round _ (deliver_header-IsPaired i w s q there))
]
step-IsPaired round (was_cancelled i) s s' q e = elim (Option-cases (get_elem? s.waiting i)) [
  | inl gone ↦ subst IsPaired (some_inj (ground (arith, gone))) q
  | inr (w, there) ↦ elim (Bool-cases w.cancelled) [
    | inl cancelled ↦
        subst IsPaired (some_inj (ground (arith, there, cancelled)))
          (clean_up-IsPaired round _ (take_cancelled-IsPaired i w s q there cancelled))
    | inr waits ↦ subst IsPaired (some_inj (ground (arith, there, waits))) q
  ]
]
step-IsPaired round (storage_failed i) s s' q e = cc
step-IsPaired round (timer now) s s' q e =
    subst IsPaired (some_inj e)
      (clean_up-IsPaired round _ (record { distinct = q.distinct; paired = q.paired }))

run-IsPaired_from :
    (es : List (Round × Event)) (s s' : HeaderWaiter)
    → IsPaired s
    → run es s ≡ some s'
    → IsPaired s'
unfolding run
run-IsPaired_from [] s s' q e = subst IsPaired (some_inj e) q
run-IsPaired_from ((round, x) ∷ es) s s' q e = elim (Option-cases (step round x s)) [
  | inl panics ↦ cc
  | inr (t, et) ↦ run-IsPaired_from es t s' (step-IsPaired round x s t q et) (ground (arith, et))
]

-- In every run of the header waiter each pending header has exactly one waiter that is not
-- cancelled, and a header that is not pending has none: it was given back, or collected.
pub run-IsPaired :
    (name : PublicKey) (c : Committee) (gc_depth : Round) (delay nodes : ℕ)
    (es : List (Round × Event)) (s : HeaderWaiter)
    → run es (spawn name c gc_depth delay nodes) ≡ some s
    → IsPaired s
unfolding spawn
run-IsPaired name c gc_depth delay nodes es s e =
    run-IsPaired_from es _ s (record { distinct = tt; paired = λ id. refl }) e
