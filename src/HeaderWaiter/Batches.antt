-- ===== src/HeaderWaiter/Batches.antt =====
-- Which batches the loop of primary/src/header_waiter.rs over the missing ones asks for.
use sailfish_test.Prelude.{
  ◌≡◌, refl, ◌∙◌, sym, ap, subst, inl, inr, List, [], ◌∷◌, ◌++◌, true, false, some, arith, ◌==◌,
  ==→eq, ==_refl, get, insert, get-insert, contains, contains-append, contains_key,
  contains_key-insert, unwrap_or, All, All-insert, Bool-cases,
}
use mathlib.Core.List.{Memᴰ}
use sailfish_test.Crypto.{Digest}
use sailfish_test.Config.{WorkerId}
use sailfish_test.Messages.{Round}
use sailfish_test.HeaderWaiter.{request_batches}

abbrev pub Requests : Type 0
Requests = List (Digest × Round)

abbrev pub Syncs : Type 0
Syncs = List (WorkerId × List Digest)

-- A digest is asked for at some worker.
abbrev pub IsAsked : Syncs → Digest → Type 0
IsAsked syncs d =
    (w : WorkerId) × (ds : List Digest) × (get w syncs ≡ some ds) × (contains ds d ≡ true)

-- All digests of an entry are missing, at its worker, and were not requested before.
abbrev pub IsWanted : List (Digest × WorkerId) → Requests → WorkerId × List Digest → Type 0
IsWanted missing before e =
    (d : Digest) → contains e.1 d ≡ true → Memᴰ (d, e.0) missing × (contains_key d before ≡ false)

-- What the loop has done: whatever it has noted as requested, and was not so before, it asks for.
record IsCounted (missing : List (Digest × WorkerId)) (before requests : Requests) (syncs : Syncs)
    : Type 0 where
  wanted : All (IsWanted missing before) syncs
  noted : (d : Digest) → contains_key d before ≡ true → contains_key d requests ≡ true
  asked :
      (d : Digest)
      → contains_key d requests ≡ true
      → contains_key d before ≡ false
      → IsAsked syncs d

All-get :
    (missing : List (Digest × WorkerId)) (before : Requests) (w : WorkerId) (syncs : Syncs)
    → All (IsWanted missing before) syncs
    → IsWanted missing before (w, unwrap_or [] (get w syncs))
All-get missing before w [] h = λ d c. cc
All-get missing before w ((v, ds) ∷ syncs) h = elim (Bool-cases (v == w)) [
  | inl hit ↦ rw hit (subst (λ t. IsWanted missing before (t, ds)) (==→eq v w hit) h.0)
  | inr miss ↦ rw miss (All-get missing before w syncs h.1)
]

noted-cons :
    (d : Digest) (w : WorkerId) (rest : List (Digest × WorkerId)) (after : Requests)
    → contains_key d after ≡ true
    → ((k : Digest) (v : WorkerId) → Memᴰ (k, v) rest → contains_key k after ≡ true)
    → (k : Digest) (v : WorkerId) → Memᴰ (k, v) ((d, w) ∷ rest)
    → contains_key k after ≡ true
noted-cons d w rest after first others k v (Memᴰ.head e) =
    subst (λ t. contains_key t after ≡ true) (sym (ap (λ t. t.0) e)) first
noted-cons d w rest after first others k v (Memᴰ.tail m) = others k v m

module _ (missing : List (Digest × WorkerId)) (before : Requests) where
  add-IsWanted :
      (d : Digest) (w : WorkerId) (syncs : Syncs)
      → Memᴰ (d, w) missing
      → contains_key d before ≡ false
      → All (IsWanted missing before) syncs
      → IsWanted missing before (w, unwrap_or [] (get w syncs) ++ d ∷ [])
  add-IsWanted d w syncs m new all k c = elim (Bool-cases (d == k)) [
    | inl same ↦
        subst (λ t. Memᴰ (t, w) missing × (contains_key t before ≡ false)) (==→eq d k same) (m, new)
    | inr other ↦
        All-get missing before w syncs all k
          (ground (arith, c, other, contains-append (unwrap_or [] (get w syncs)) (d ∷ []) k))
  ]

  -- What is asked for stays so, and the digest that is added is asked for too.
  add-IsAsked :
      (d k : Digest) (w : WorkerId) (syncs : Syncs)
      → ((d == k) ≡ false → IsAsked syncs k)
      → IsAsked (insert w (unwrap_or [] (get w syncs) ++ d ∷ []) syncs) k
  add-IsAsked d k w syncs old = elim (Bool-cases (d == k)) [
    | inl same ↦ (
      w,
      unwrap_or [] (get w syncs) ++ d ∷ [],
      get-insert w w _ syncs ∙ rw (==_refl w) refl,
      ground (arith, same, contains-append (unwrap_or [] (get w syncs)) (d ∷ []) k),
    )
    | inr other ↦
        let (v, ds, there, c) = old other in
        elim (Bool-cases (w == v)) [
          | inl hit ↦
              let here : get w syncs ≡ some ds = rw (==→eq w v hit) there in
              (
                w,
                ds ++ d ∷ [],
                rw here (get-insert w w (ds ++ d ∷ []) syncs ∙ rw (==_refl w) refl),
                ground (arith, c, contains-append ds (d ∷ []) k),
              )
          | inr miss ↦ (
            v,
            ds,
            get-insert w v (unwrap_or [] (get w syncs) ++ d ∷ []) syncs ∙ rw miss there,
            c,
          )
        ]
  ]

  add-IsCounted :
      (r : Round) (d : Digest) (w : WorkerId) (requests : Requests) (syncs : Syncs)
      → Memᴰ (d, w) missing
      → contains_key d requests ≡ false
      → IsCounted missing before requests syncs
      → IsCounted missing before
          (insert d r requests)
          (insert w (unwrap_or [] (get w syncs) ++ d ∷ []) syncs)
  add-IsCounted r d w requests syncs m new q =
      let fresh : contains_key d before ≡ false = elim (Bool-cases (contains_key d before)) [
        | inl known ↦ cc (q.noted d known, new)
        | inr unknown ↦ unknown
      ] in
      record {
        wanted =
            All-insert (IsWanted missing before) w _ syncs (add-IsWanted d w syncs m fresh q.wanted)
              q.wanted;
        noted = λ k h. rw (contains_key-insert d k r requests) (ground (arith, q.noted k h));
        asked = λ k h other.
            add-IsAsked d k w syncs
              (λ ne. q.asked k (ground (arith, h, ne, contains_key-insert d k r requests)) other);
      }

  -- The loop over the rest of the missing batches: all of them are noted after it.
  request_batches-IsCounted :
      (r : Round) (rest : List (Digest × WorkerId)) (requests : Requests) (syncs : Syncs)
      → ((e : Digest × WorkerId) → Memᴰ e rest → Memᴰ e missing)
      → IsCounted missing before requests syncs
      → IsCounted missing before
          (request_batches r rest (requests, syncs)).0
          (request_batches r rest (requests, syncs)).1
        × ((d : Digest)
            → contains_key d requests ≡ true
            → contains_key d (request_batches r rest (requests, syncs)).0 ≡ true)
        × ((d : Digest) (w : WorkerId)
            → Memᴰ (d, w) rest
            → contains_key d (request_batches r rest (requests, syncs)).0 ≡ true)
  unfolding request_batches
  request_batches-IsCounted r [] requests syncs m q = (q, λ d h. h, λ d w n. elim n [ ])
  request_batches-IsCounted r ((d, w) ∷ rest) requests syncs m q =
      elim (Bool-cases (contains_key d requests)) [
        | inl known ↦
            let (c, grows, noted) =
              request_batches-IsCounted r rest requests syncs (λ e n. m e (Memᴰ.tail n)) q in
            rw (request_batches, known) (c, grows, noted-cons d w rest _ (grows d known) noted)
        | inr new ↦
            let (c, grows, noted) =
              request_batches-IsCounted r rest (insert d r requests)
                (insert w (unwrap_or [] (get w syncs) ++ d ∷ []) syncs) (λ e n. m e (Memᴰ.tail n))
                (add-IsCounted r d w requests syncs (m (d, w) (Memᴰ.head refl)) new q) in
            rw (request_batches, new)
              (
                c,
                λ k h. grows k (rw (contains_key-insert d k r requests) (ground (arith, h))),
                noted-cons d w rest _
                    (grows d (rw (contains_key-insert d d r requests, ==_refl d) refl)) noted,
              )
      ]

-- The loop from its start: it asks for exactly the missing batches that were not requested before.
pub request_batches_lem :
    (r : Round) (missing : List (Digest × WorkerId)) (before : Requests)
    → All (IsWanted missing before) (request_batches r missing (before, [])).1
      × ((d : Digest) (w : WorkerId)
          → Memᴰ (d, w) missing
          → contains_key d before ≡ false
          → IsAsked (request_batches r missing (before, [])).1 d)
request_batches_lem r missing before =
    let (q, grows, noted) =
      request_batches-IsCounted missing before r missing before [] (λ e m. m)
        (record { wanted = tt; noted = λ d h. h; asked = λ d h f. cc }) in
    (q.wanted, λ d w m fresh. q.asked d (noted d w m) fresh)
