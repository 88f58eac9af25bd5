-- ===== src/Proposer/Resolve.antt =====
-- The digests that a header of primary/src/proposer.rs has for its parents, and the certificates that
-- primary/src/synchronizer.rs finds for them.
use sailfish_test.Prelude.{
  ℕ, ◌≡◌, ◌⊎◌, refl, ap, ◌∙◌, inl, inr, List, [], ◌∷◌, map, Bool, false, ◌||◌, ◌&&◌, none, some,
  arith, ◌==◌, ltb, if◌then◌else◌, add32, All, any, is_empty, find, get, contains, Distinct,
  Bool-cases,
}
use sailfish_test.Crypto.{Digest, PublicKey, Primitives}
use sailfish_test.Config.{Committee, stake}
use sailfish_test.Messages.{Header, Certificate, ok, origin, certificate_digest}
use sailfish_test.Core.{Core, Codec, done, try_}
use sailfish_test.Core.Sync.{genesis_entries, lookup_parent, lookup_parents, get_parents}
use sailfish_test.Proposer.{insert_digest, collect_set}

-- The weight and the presence of the leader, as the core counts them.
abbrev pub parents_weight : Committee → ℕ → List Certificate → ℕ
parents_weight c w [] = w
parents_weight c w (x ∷ xs) = parents_weight c (add32 w (stake c (origin x))) xs

abbrev pub has_origin : PublicKey → List Certificate → Bool
has_origin lead xs = any (λ x. lead == origin x) xs

parents_weight-add :
    (c : Committee) (w v : ℕ) (xs : List Certificate)
    → parents_weight c (add32 w v) xs ≡ add32 (parents_weight c w xs) v
parents_weight-add c w v [] = refl
parents_weight-add c w v (x ∷ xs) =
    let swap : add32 (add32 w v) (stake c (origin x)) ≡ add32 (add32 w (stake c (origin x))) v =
      omega arith in
    rw swap (parents_weight-add c (add32 w (stake c (origin x))) v xs)

module _ (p : Primitives) where
  abbrev pub digests_of : List Certificate → List Digest
  digests_of xs = map (certificate_digest p) xs

  -- Certificates in the order of their digests, as a `BTreeSet` has these.
  abbrev add_sorted : Certificate → List Certificate → List Certificate
  add_sorted x [] = x ∷ []
  add_sorted x (y ∷ ys) =
      let rest = add_sorted x ys in
      if certificate_digest p y == certificate_digest p x
      then y ∷ ys
      else if ltb (certificate_digest p x) (certificate_digest p y)
      then x ∷ y ∷ ys
      else y ∷ rest

  abbrev pub sorted_from : List Certificate → List Certificate → List Certificate
  sorted_from m [] = m
  sorted_from m (x ∷ xs) = sorted_from (add_sorted x m) xs

  add_sorted-digests :
      (x : Certificate) (m : List Certificate)
      → insert_digest (certificate_digest p x) (digests_of m) ≡ digests_of (add_sorted x m)
  unfolding insert_digest
  add_sorted-digests x [] = refl
  add_sorted-digests x (y ∷ m) = ground (arith, add_sorted-digests x m)

  sorted_from-digests :
      (m xs : List Certificate)
      → collect_set (digests_of m) (digests_of xs) ≡ digests_of (sorted_from m xs)
  unfolding collect_set
  sorted_from-digests m [] = refl
  sorted_from-digests m (x ∷ xs) =
      ap (λ l. collect_set l (digests_of xs)) (add_sorted-digests x m)
      ∙ sorted_from-digests (add_sorted x m) xs

  add_sorted-All :
      (P : Certificate → Type 0) (x : Certificate) (m : List Certificate)
      → P x
      → All P m
      → All P (add_sorted x m)
  add_sorted-All P x [] h a = (h, tt)
  add_sorted-All P x (y ∷ m) h a =
      elim (Bool-cases (certificate_digest p y == certificate_digest p x)) [
        | inl same ↦ rw same a
        | inr other ↦ elim (Bool-cases (ltb (certificate_digest p x) (certificate_digest p y))) [
          | inl below ↦ rw (other, below) (h, a)
          | inr above ↦ rw (other, above) (a.0, add_sorted-All P x m h a.1)
        ]
      ]

  pub sorted_from-All :
      (P : Certificate → Type 0) (m xs : List Certificate)
      → All P xs
      → All P m
      → All P (sorted_from m xs)
  sorted_from-All P m [] h a = a
  sorted_from-All P m (x ∷ xs) h a =
      sorted_from-All P (add_sorted x m) xs h.1 (add_sorted-All P x m h.0 a)

  -- A certificate that is not there yet is counted.
  add_sorted-weight :
      (c : Committee) (w : ℕ) (x : Certificate) (m : List Certificate)
      → contains (digests_of m) (certificate_digest p x) ≡ false
      → parents_weight c w (add_sorted x m) ≡ add32 (parents_weight c w m) (stake c (origin x))
  add_sorted-weight c w x [] new = refl
  add_sorted-weight c w x (y ∷ m) new =
      let other : (certificate_digest p y == certificate_digest p x) ≡ false =
        ground (arith, new) in
      elim (Bool-cases (ltb (certificate_digest p x) (certificate_digest p y))) [
        | inl below ↦ rw (other, below) (parents_weight-add c w (stake c (origin x)) (y ∷ m))
        | inr above ↦
            rw (other, above)
              (add_sorted-weight c (add32 w (stake c (origin y))) x m (ground (arith, new)))
      ]

  add_sorted-origin :
      (lead : PublicKey) (x : Certificate) (m : List Certificate)
      → contains (digests_of m) (certificate_digest p x) ≡ false
      → has_origin lead (add_sorted x m) ≡ (lead == origin x || has_origin lead m)
  add_sorted-origin lead x [] new = refl
  add_sorted-origin lead x (y ∷ m) new =
      let other : (certificate_digest p y == certificate_digest p x) ≡ false =
        ground (arith, new) in
      elim (Bool-cases (ltb (certificate_digest p x) (certificate_digest p y))) [
        | inl below ↦ rw (other, below) refl
        | inr above ↦
            rw (other, above, add_sorted-origin lead x m (ground (arith, new))) (ground arith)
      ]

  add_sorted-contains :
      (x : Certificate) (m : List Certificate) (d : Digest)
      → contains (digests_of (add_sorted x m)) d
        ≡ (certificate_digest p x == d || contains (digests_of m) d)
  add_sorted-contains x [] d = refl
  add_sorted-contains x (y ∷ m) d = ground (arith, add_sorted-contains x m d)

  abbrev pub IsFresh : List Certificate → List Certificate → Type 0
  IsFresh m xs = All (λ x. contains (digests_of m) (certificate_digest p x) ≡ false) xs

  add_sorted-IsFresh :
      (x : Certificate) (m xs : List Certificate)
      → contains (digests_of xs) (certificate_digest p x) ≡ false
      → IsFresh m xs
      → IsFresh (add_sorted x m) xs
  add_sorted-IsFresh x m [] c f = tt
  add_sorted-IsFresh x m (y ∷ xs) c f = (
    ground (arith, c, f.0, add_sorted-contains x m (certificate_digest p y)),
    add_sorted-IsFresh x m xs (ground (arith, c)) f.1,
  )

  pub sorted_from-weight :
      (c : Committee) (w : ℕ) (m xs : List Certificate)
      → Distinct (digests_of xs)
      → IsFresh m xs
      → parents_weight c w (sorted_from m xs) ≡ parents_weight c (parents_weight c w m) xs
  sorted_from-weight c w m [] d f = refl
  sorted_from-weight c w m (x ∷ xs) d f =
      sorted_from-weight c w (add_sorted x m) xs d.1 (add_sorted-IsFresh x m xs d.0 f.1)
      ∙ ap (λ t. parents_weight c t xs) (add_sorted-weight c w x m f.0)

  pub sorted_from-origin :
      (lead : PublicKey) (m xs : List Certificate)
      → Distinct (digests_of xs)
      → IsFresh m xs
      → has_origin lead (sorted_from m xs) ≡ (has_origin lead xs || has_origin lead m)
  sorted_from-origin lead m [] d f = refl
  sorted_from-origin lead m (x ∷ xs) d f =
      sorted_from-origin lead (add_sorted x m) xs d.1 (add_sorted-IsFresh x m xs d.0 f.1)
      ∙ rw (add_sorted-origin lead x m f.0) (ground arith)

  add_sorted-nonempty : (x : Certificate) (m : List Certificate) → is_empty (add_sorted x m) ≡ false
  add_sorted-nonempty x [] = refl
  add_sorted-nonempty x (y ∷ m) = ground arith

  pub sorted_from-nonempty :
      (m xs : List Certificate) → is_empty (sorted_from m xs) ≡ (is_empty m && is_empty xs)
  sorted_from-nonempty m [] = ground arith
  sorted_from-nonempty m (x ∷ xs) =
      sorted_from-nonempty (add_sorted x m) xs ∙ rw (add_sorted-nonempty x m) (ground arith)

  -- The core has the certificate: as one of the genesis, or in its store under its digest.
  abbrev pub IsKnown : Codec → Core → Certificate → Type 0
  IsKnown b k x =
      (find (λ e. e.0 == certificate_digest p x) (genesis_entries p b k.committee)
        ≡ some (certificate_digest p x, x))
      ⊎ ((find (λ e. e.0 == certificate_digest p x) (genesis_entries p b k.committee) ≡ none)
          × (bytes : List ℕ) × (get (certificate_digest p x) k.store.entries ≡ some bytes)
          × (b.deserialize_certificate bytes ≡ some x))

  lookup_parent-known :
      (b : Codec) (k : Core) (x : Certificate)
      → k.store.broken ≡ false
      → IsKnown b k x
      → lookup_parent p b k.committee k.store (certificate_digest p x) ≡ ok (some x)
  unfolding lookup_parent
  lookup_parent-known b k x well (inl first) = rw (lookup_parent, first) refl
  lookup_parent-known b k x well (inr (later, bytes, there, decoded)) =
      ground (arith, later, well, there, decoded)

  lookup_parents-known :
      (b : Codec) (k : Core) (xs : List Certificate)
      → k.store.broken ≡ false
      → All (IsKnown b k) xs
      → lookup_parents p b k.committee k.store (digests_of xs) ≡ ok ([], xs)
  unfolding lookup_parents
  lookup_parents-known b k [] well h = refl
  lookup_parents-known b k (x ∷ xs) well h =
      rw (lookup_parents, lookup_parent-known b k x well h.0, lookup_parents-known b k xs well h.1)
        refl

  pub get_parents-known :
      (b : Codec) (k : Core) (h : Header) (xs : List Certificate)
      → k.store.broken ≡ false
      → All (IsKnown b k) xs
      → h.parents ≡ collect_set [] (digests_of xs)
      → get_parents p b h k ≡ (done (sorted_from [] xs), k)
  unfolding get_parents try_
  get_parents-known b k h xs well known e =
      rw
        (
          get_parents,
          e,
          sorted_from-digests [] xs,
          lookup_parents-known b k (sorted_from [] xs) well
              (sorted_from-All (IsKnown b k) [] xs known tt),
        )
        refl
