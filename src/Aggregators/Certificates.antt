-- ===== src/Aggregators/Certificates.antt =====
-- The certificates of primary/src/aggregators.rs, over a whole sequence of `append` calls.
use mathlib.Core.List.{append-nil, append_assoc}
use sailfish_test.Prelude.{
  ◌<◌, ◌≡◌, refl, sym, ◌∙◌, ap, ◌⊎◌, inl, inr, List, [], ◌∷◌, ◌++◌, map, true, false, Option, none,
  some, arith, if◌then◌else◌, leb, contains, set_insert_fresh, Distinct, Distinct-snoc, Bool-cases,
}
use sailfish_test.Crypto.{PublicKey}
use sailfish_test.Config.{Committee, quorum_threshold}
use sailfish_test.Config.Stakes.{IsValid, weight, weight-append}
use sailfish_test.Config.Overlap.{quorum_eq}
use sailfish_test.Messages.{Certificate, origin}
use sailfish_test.Aggregators.{
  CertificatesAggregator, append_certificate, count_certificate, new_certificates,
}
use sailfish_test.Aggregators.Counted.{weight-snoc}

abbrev pub origins : List Certificate → List PublicKey
origins l = map origin l

abbrev pub released : Option (List Certificate) → List Certificate
released none = []
released (some l) = l

-- All that comes out of a sequence of certificates, in order.
pub gathered : Committee → CertificatesAggregator → List Certificate → List Certificate
gathered c a [] = []
gathered c a (x ∷ xs) =
    released (append_certificate x c a).0 ++ gathered c (append_certificate x c a).1 xs

-- The first certificate of each origin, past the origins that were seen before.
pub firsts : List PublicKey → List Certificate → List Certificate
firsts seen [] = []
firsts seen (x ∷ xs) = elim (contains seen (origin x)) [
  | true ↦ firsts seen xs
  | false ↦ x ∷ firsts (seen ++ origin x ∷ []) xs
]

record IsGathered (c : Committee) (a : CertificatesAggregator) : Type 0 where
  distinct : Distinct a.used
  counted : a.weight ≡ weight c a.used
  -- Before the quorum everything is held, after it nothing.
  held : (weight c a.used < quorum_threshold c) ⊎ (a.certificates ≡ [])

-- What is due when `l` follows.
abbrev due : Committee → CertificatesAggregator → List Certificate → List Certificate
due c a l =
    if leb (quorum_threshold c) (weight c (a.used ++ origins l)) then a.certificates ++ l else []

module _ (c : Committee) (valid : IsValid c) (x : Certificate) (a : CertificatesAggregator) where
  gathered-seen :
      (xs : List Certificate)
      → contains a.used (origin x) ≡ true
      → (gathered c a (x ∷ xs) ≡ gathered c a xs) × (firsts a.used (x ∷ xs) ≡ firsts a.used xs)
  unfolding gathered firsts append_certificate
  gathered-seen xs old = (rw old, rw (old, firsts))

  firsts-fresh :
      (xs : List Certificate)
      → contains a.used (origin x) ≡ false
      → firsts a.used (x ∷ xs) ≡ x ∷ firsts (count_certificate x c a).used xs
  unfolding firsts count_certificate
  firsts-fresh xs fresh = rw (fresh, firsts)

  -- The quorum is there: the certificates come out with the new one.
  gathered-released :
      (xs : List Certificate)
      → contains a.used (origin x) ≡ false
      → leb (quorum_threshold c) (count_certificate x c a).weight ≡ true
      → gathered c a (x ∷ xs)
        ≡ (count_certificate x c a).certificates
          ++ gathered c (record (count_certificate x c a) { certificates = [] }) xs
  unfolding gathered append_certificate
  gathered-released xs fresh reached = rw (fresh, reached)

  gathered-held :
      (xs : List Certificate)
      → contains a.used (origin x) ≡ false
      → leb (quorum_threshold c) (count_certificate x c a).weight ≡ false
      → gathered c a (x ∷ xs) ≡ gathered c (count_certificate x c a) xs
  unfolding gathered append_certificate
  gathered-held xs fresh short = rw (fresh, short)

  count-weight :
      IsGathered c a
      → contains a.used (origin x) ≡ false
      → ((count_certificate x c a).used ≡ a.used ++ origin x ∷ [])
        × Distinct (count_certificate x c a).used
        × ((count_certificate x c a).weight ≡ weight c (count_certificate x c a).used)
  unfolding count_certificate
  count-weight i fresh = rw (set_insert_fresh (origin x) a.used fresh) (
    refl,
    Distinct-snoc a.used (origin x) i.distinct fresh,
    omega (arith, weight-snoc c valid a.used (origin x) i.distinct fresh, i.counted, valid.bounded),
  )

  -- What was due before the new one came is what is due after it.
  due-count :
      (l : List Certificate)
      → IsGathered c a
      → contains a.used (origin x) ≡ false
      → due c (count_certificate x c a) l ≡ due c a (x ∷ l)
  due-count l i fresh =
      let (u, _, _) = count-weight i fresh in
      let names : (count_certificate x c a).used ++ origins l ≡ a.used ++ origins (x ∷ l) =
        rw u (append_assoc a.used (origin x ∷ []) (origins l)) in
      let certs : (count_certificate x c a).certificates ++ l ≡ a.certificates ++ (x ∷ l) =
        unfold count_certificate in append_assoc a.certificates (x ∷ []) l in
      rw (names, certs)

  due-released :
      (l : List Certificate)
      → IsGathered c a
      → contains a.used (origin x) ≡ false
      → leb (quorum_threshold c) (count_certificate x c a).weight ≡ true
      → (count_certificate x c a).certificates
          ++ due c (record (count_certificate x c a) { certificates = [] }) l
        ≡ due c (count_certificate x c a) l
  due-released l i fresh reached =
      ground
        (arith, count-weight i fresh, weight-append c (count_certificate x c a).used (origins l))

module _ (c : Committee) (valid : IsValid c) where
  gathered-eq :
      (a : CertificatesAggregator) (xs : List Certificate)
      → IsGathered c a
      → gathered c a xs ≡ due c a (firsts a.used xs)
  unfolding gathered firsts
  gathered-eq a [] i =
      ground
        (arith, append-nil a.used, append-nil a.certificates, ap (weight c) (append-nil a.used))
  gathered-eq a (x ∷ xs) i = elim (Bool-cases (contains a.used (origin x))) [
    | inl old ↦
        let (g, f) = gathered-seen c valid x a xs old in
        g ∙ gathered-eq a xs i ∙ ap (due c a) (sym f)
    | inr fresh ↦
        let (u, d, w) = count-weight c valid x a i fresh in
        let rest = firsts (count_certificate x c a).used xs in
        let due_eq =
          due-count c valid x a rest i fresh
          ∙ ap (due c a) (sym (firsts-fresh c valid x a xs fresh)) in
        elim (Bool-cases (leb (quorum_threshold c) (count_certificate x c a).weight)) [
          | inl reached ↦
              gathered-released c valid x a xs fresh reached
              ∙ ap (◌++◌ (count_certificate x c a).certificates) (
                  gathered-eq (record (count_certificate x c a) { certificates = [] }) xs
                    (record { distinct = d; counted = w; held = inr refl }))
              ∙ due-released c valid x a rest i fresh reached
              ∙ due_eq
          | inr short ↦
              gathered-held c valid x a xs fresh short
              ∙ gathered-eq (count_certificate x c a) xs
                  (record { distinct = d; counted = w; held = inl (ground (arith, w)) })
              ∙ due_eq
        ]
  ]

  -- On a valid committee, a sequence of certificates brings from a new aggregator, in all, the
  -- first of each origin in the order of arrival if those origins hold together a quorum, and
  -- nothing if they do not.
  pub gathered-firsts :
      (xs : List Certificate)
      → gathered c new_certificates xs ≡ (
          if leb (quorum_threshold c) (weight c (origins (firsts [] xs))) then firsts [] xs else [])
  gathered-firsts xs =
      gathered-eq new_certificates xs
        (record { distinct = tt; counted = refl; held = inl (omega (arith, quorum_eq c valid)) })
