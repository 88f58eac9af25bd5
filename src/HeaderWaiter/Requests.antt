-- ===== src/HeaderWaiter/Requests.antt =====
-- What primary/src/header_waiter.rs asks for when a header lacks parents or payload.
use sailfish_test.Prelude.{
  contains_key-insert, ℕ, ◌≡◌, refl, ◌∙◌, sym, ap, subst, inl, inr, List, [], ◌∷◌, ◌++◌, true,
  false, not, ◌&&◌, ◌||◌, Option, none, some, arith, ◌==◌, if◌then◌else◌, get, insert, contains,
  contains_key, Distinct, Distinct-snoc, contains-append, Bool-cases, Option-cases, ◌⊎◌, is_empty,
  some_inj, ==→eq, get-insert,
}
use sailfish_test.Crypto.{Digest}
use sailfish_test.Config.{SocketAddr, primary}
use sailfish_test.Messages.{Round, Header}
use sailfish_test.HeaderWaiter.{
  HeaderWaiter, request_parents, sync_parents, add_waiter, primary_address, certificates_request,
}

abbrev pub or_else {ℓ} : {A : Type ℓ} → Option A → Option A → Option A
or_else (some a) o = some a
or_else none o = o

get-absent {ℓ} : {V : Type ℓ} (d : ℕ) (m : List (ℕ × V)) → contains_key d m ≡ false → get d m ≡ none
get-absent d [] h = refl
get-absent d ((j, w) ∷ m) h = ground (arith, get-absent d m)

get-present {ℓ} :
    {V : Type ℓ} (d : ℕ) (m : List (ℕ × V)) → contains_key d m ≡ true → (v : V) × (get d m ≡ some v)
get-present d [] h = cc
get-present d ((j, w) ∷ m) h = elim (Bool-cases (j == d)) [
  | inl hit ↦ (w, rw hit refl)
  | inr miss ↦ let (v, e) = get-present d m (ground (arith, miss)) in (v, rw miss e)
]

-- The requests after missing parents are asked for, and the digests that are then requested: each
-- missing digest is noted, with the time of its first request, and those that were not noted before
-- are requested, each once.
pub record IsRequested (r : Round) (now : ℕ) (missing : List Digest)
    (before after : List (Digest × (Round × ℕ))) (fresh : List Digest) : Type 0 where
  pub noted :
      (d : Digest)
      → get d after ≡ or_else (get d before) (if contains missing d then some (r, now) else none)
  pub asked : (d : Digest) → contains fresh d ≡ (contains missing d && not (contains_key d before))
  pub once : Distinct fresh

module _ (r : Round) (now : ℕ) where
  get-request_parents :
      (missing : List Digest) (m : List (Digest × (Round × ℕ))) (acc : List Digest) (d : Digest)
      → get d (request_parents r now missing (m, acc)).0
        ≡ or_else (get d m) (if contains missing d then some (r, now) else none)
  unfolding request_parents
  get-request_parents [] m acc d = elim (Option-cases (get d m)) [
    | inl e ↦ rw e refl
    | inr (v, e) ↦ rw e refl
  ]
  get-request_parents (x ∷ missing) m acc d = elim (Bool-cases (contains_key x m)) [
    | inl old ↦
        rw (request_parents, old)
          (get-request_parents missing m acc d ∙ elim (Bool-cases (x == d)) [
            | inl same ↦
                let (v, e) =
                  get-present d m (subst (λ i. contains_key i m ≡ true) (==→eq x d same) old) in
                rw e refl
            | inr other ↦ rw other refl
          ])
    | inr new ↦
        rw (request_parents, new)
          (get-request_parents missing (insert x (r, now) m) (acc ++ x ∷ []) d
            ∙ rw (get-insert x d (r, now) m) (elim (Bool-cases (x == d)) [
              | inl same ↦
                  rw
                    (
                      same,
                      get-absent d m (subst (λ i. contains_key i m ≡ false) (==→eq x d same) new),
                    )
                    refl
              | inr other ↦ rw other refl
            ]))
  ]

  contains-request_parents :
      (missing : List Digest) (m : List (Digest × (Round × ℕ))) (acc : List Digest) (d : Digest)
      → contains (request_parents r now missing (m, acc)).1 d
        ≡ (contains acc d || contains missing d && not (contains_key d m))
  unfolding request_parents
  contains-request_parents [] m acc d = ground arith
  contains-request_parents (x ∷ missing) m acc d = elim (Bool-cases (contains_key x m)) [
    | inl old ↦
        rw (request_parents, old)
          (contains-request_parents missing m acc d ∙ elim (Bool-cases (x == d)) [
            | inl same ↦
                ground (arith, same, subst (λ i. contains_key i m ≡ true) (==→eq x d same) old)
            | inr other ↦ rw other refl
          ])
    | inr new ↦
        rw (request_parents, new)
          (contains-request_parents missing (insert x (r, now) m) (acc ++ x ∷ []) d
            ∙ rw (contains-append acc (x ∷ []) d, contains_key-insert x d (r, now) m)
                (elim (Bool-cases (x == d)) [
                  | inl same ↦
                      ground
                        (arith, same, subst (λ i. contains_key i m ≡ false) (==→eq x d same) new)
                  | inr other ↦ ground (arith, other)
                ]))
  ]

  Distinct-request_parents :
      (missing : List Digest) (m : List (Digest × (Round × ℕ))) (acc : List Digest)
      → Distinct acc
      → ((d : Digest) → contains_key d m ≡ false → contains acc d ≡ false)
      → Distinct (request_parents r now missing (m, acc)).1
  unfolding request_parents
  Distinct-request_parents [] m acc u n = u
  Distinct-request_parents (x ∷ missing) m acc u n = elim (Bool-cases (contains_key x m)) [
    | inl old ↦ rw (request_parents, old) (Distinct-request_parents missing m acc u n)
    | inr new ↦
        rw (request_parents, new)
          (Distinct-request_parents missing (insert x (r, now) m) (acc ++ x ∷ [])
            (Distinct-snoc acc x u (n x new))
            (λ d h.
              ground (
                arith,
                h,
                contains-append acc (x ∷ []) d,
                contains_key-insert x d (r, now) m,
                n d,
              )))
  ]

  request_parents-IsRequested :
      (missing : List Digest) (m : List (Digest × (Round × ℕ)))
      → IsRequested r now missing m
          (request_parents r now missing (m, [])).0
          (request_parents r now missing (m, [])).1
  request_parents-IsRequested missing m = record {
    noted = get-request_parents missing m [];
    asked = contains-request_parents missing m [];
    once = Distinct-request_parents missing m [] tt (λ d h. refl);
  }

send-cases :
    (fresh : List Digest) (o : Option SocketAddr) (s s' : HeaderWaiter)
    → (if is_empty fresh then some s else elim o [
      | none ↦ none
      | some address ↦
          some (record s { sent = s.sent ++ certificates_request address fresh s.name ∷ [] })
    ])
      ≡ some s'
    → (s'.parent_requests ≡ s.parent_requests)
      × (((fresh ≡ []) × (s'.sent ≡ s.sent))
          ⊎ ((address : SocketAddr) × (o ≡ some address)
              × (s'.sent ≡ s.sent ++ certificates_request address fresh s.name ∷ [])))
send-cases [] o s s' e = (
  ap (λ t. t.parent_requests) (sym (some_inj e)),
  inl (refl, ap (λ t. t.sent) (sym (some_inj e))),
)
send-cases (d ∷ fresh) none s s' e = cc
send-cases (d ∷ fresh) (some a) s s' e = (
  ap (λ t. t.parent_requests) (sym (some_inj e)),
  inr (a, refl, ap (λ t. t.sent) (sym (some_inj e))),
)

-- A header that lacks parents and is not pending: where the header waiter does not panic, it notes
-- every missing digest with the time of its first request, and sends one request to the primary of the
-- author for exactly those that were not requested before, each once, or none if there are none.
pub sync_parents-IsRequested :
    (now : ℕ) (missing : List Digest) (h : Header) (s s' : HeaderWaiter)
    → sync_parents now missing h s ≡ some s'
    → (fresh : List Digest) × IsRequested h.round now missing s.parent_requests s'.parent_requests
        fresh
      × (((fresh ≡ []) × (s'.sent ≡ s.sent))
          ⊎ ((address : SocketAddr) × (primary_address (primary s.committee h.author)
                ≡ some address)
              × (s'.sent ≡ s.sent ++ certificates_request address fresh s.name ∷ [])))
unfolding sync_parents add_waiter
sync_parents-IsRequested now missing h s s' e =
    let rs = request_parents h.round now missing (s.parent_requests, []) in
    let c = send-cases rs.1 (primary_address (primary s.committee h.author)) _ s' e in
    (
      rs.1,
      subst (λ m. IsRequested h.round now missing s.parent_requests m rs.1) (sym c.0)
          (request_parents-IsRequested h.round now missing s.parent_requests),
      c.1,
    )
