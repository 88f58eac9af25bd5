-- ===== src/Consensus/Order/Support.antt =====
-- The support of a leader in consensus/src/lib.rs, against `linked` from later certificates.
use mathlib.Core.List.{Memᴰ}
use mathlib.Core.Option.{some-injective}
use native.Mathlib.Decide.{dec_lt}
use sailfish_test.Prelude.{
  ℕ, zero, suc, ◌+◌, ◌-◌, ◌≤◌, ◌<◌, ◌≡◌, refl, sym, ap, subst, ◌∙◌, inl, inr, List, [], ◌∷◌, Bool,
  true, ◌&&◌, some, arith, ◌==◌, any, retain, contains, get, keys, values, Distinct,
  contains-keys-retain, Distinct-keys-retain, Bool-cases,
}
use sailfish_test.Crypto.{Digest, PublicKey}
use sailfish_test.Config.{Committee, quorum_threshold, validity_threshold}
use sailfish_test.Config.Stakes.{Authorities, IsValid, held_by, weight}
use sailfish_test.Config.Overlap.{quorum_eq, quorum_meets_validity}
use sailfish_test.Messages.{Round, Certificate, round_of, same_certificate}
use sailfish_test.Consensus.State.{Authors, Dag}
use sailfish_test.Consensus.Order.{rounds_down, linked_loop, linked, referenced}
use sailfish_test.Consensus.Order.Links.{Descent, here, down, gap, linked_iff}

abbrev Entry : Type 0
Entry = PublicKey × (Digest × Certificate)

-- The authorities of a round whose certificate has a digest as a parent, and those whose certificate
-- is a parent of `x`.
abbrev pub supporters : Digest → Authors → List PublicKey
supporters d authors = keys (retain (λ e. contains e.1.1.header.parents d) authors)

abbrev pub parent_names : Certificate → Authors → List PublicKey
parent_names x authors = keys (retain (λ e. contains x.header.parents e.1.0) authors)

held_by-pos :
    (p : PublicKey → Bool) (l : Authorities) → 0 < held_by p l → (n : PublicKey) × (p n ≡ true)
held_by-pos p [] h = absurd (omega arith)
held_by-pos p ((name, a) ∷ rest) h = elim (Bool-cases (p name)) [
  | inl hit ↦ (name, hit)
  | inr miss ↦ held_by-pos p rest (ground (arith, miss))
]

-- A name that two filters let pass is that of one entry, which passes both.
common_entry :
    (p q : Entry → Bool) (es : Authors) (n : PublicKey)
    → Distinct (keys es)
    → contains (keys (retain p es)) n ≡ true
    → contains (keys (retain q es)) n ≡ true
    → (e : Entry) × Memᴰ e.1 (values es) × (p e ≡ true) × (q e ≡ true)
common_entry p q [] n d hp hq = cc
common_entry p q (e ∷ es) n d hp hq = elim (Bool-cases (e.0 == n)) [
  | inl same ↦ (
    e,
    Memᴰ.head refl,
    ground (arith, contains-keys-retain p es e.0 d.0),
    ground (arith, contains-keys-retain q es e.0 d.0),
  )
  | inr other ↦
      let (x, m, px, qx) =
        common_entry p q es n d.1 (ground (arith, other)) (ground (arith, other)) in
      (x, Memᴰ.tail m, px, qx)
]

-- The round below `r` is in the DAG, one entry for each name, and the parents of `x` in it hold a
-- quorum.
pub record HasQuorum (c : Committee) (dag : Dag) (r : Round) (x : Certificate) : Type 0 where
  pub authors : Authors
  pub below : Round
  pub next : below + 1 ≡ r
  pub present : get below dag ≡ some authors
  pub distinct : Distinct (keys authors)
  pub enough : quorum_threshold c ≤ weight c (parent_names x authors)

-- Every certificate of a round from `lo` up has a quorum of parents.
pub record IsClosed (c : Committee) (dag : Dag) (lo : Round) : Type 0 where
  pub parents :
      (r : Round) (authors : Authors) (e : Digest × Certificate)
      → lo ≤ r
      → get r dag ≡ some authors
      → Memᴰ e (values authors)
      → HasQuorum c dag r e.1

-- A leader of round `r` with its entry, and the certificates of the next round that support it.
pub record IsSupported (c : Committee) (dag : Dag) (r : Round) (d : Digest) (l : Certificate)
    : Type 0 where
  pub leaders : Authors
  pub authors : Authors
  pub leaders_present : get r dag ≡ some leaders
  pub in_leaders : Memᴰ (d, l) (values leaders)
  pub present : get (suc r) dag ≡ some authors
  pub enough : validity_threshold c ≤ weight c (supporters d authors)

retained_entry :
    (c : Committee) (p : Entry → Bool) (es : Authors)
    → 0 < weight c (keys (retain p es))
    → (e : Entry) × Memᴰ e.1 (values es) × (p e ≡ true)
retained_entry c p [] h = absurd (omega arith)
retained_entry c p (e ∷ es) h = elim (Bool-cases (p e)) [
  | inl hit ↦ (e, Memᴰ.head refl, hit)
  | inr miss ↦ let (x, m, px) = retained_entry c p es (rw miss at h) in (x, Memᴰ.tail m, px)
]

module _ (c : Committee) (valid : IsValid c) (dag : Dag) where
  -- From a certificate with a quorum of parents, a path leads down to every round from `lo` up.
  climb_down :
      (lo j top_round : ℕ) (top : Certificate)
      → IsClosed c dag lo
      → round_of top ≡ top_round
      → HasQuorum c dag top_round top
      → lo + j ≤ top_round
      → (x : Certificate) × Descent dag top j x × HasQuorum c dag (top_round - j) x
  climb_down lo zero n top closed e q h =
      (top, here, subst (λ r. HasQuorum c dag r top) (omega arith) q)
  climb_down lo (suc j) n top closed e q h =
      let (x, p, qx) = climb_down lo j n top closed e q (omega arith) in
      let (y, m, hp) =
        retained_entry c (λ e. contains x.header.parents e.1.0) qx.authors
          (omega (arith, quorum_eq c valid, qx.enough)) in
      (
        y.1.1,
        down qx.below qx.authors y.1.0 y.1.1 p (omega (arith, qx.next)) qx.present m hp,
        subst (λ r. HasQuorum c dag r y.1.1) (omega (arith, qx.next))
            (closed.parents qx.below qx.authors y.1 (omega (arith, qx.next)) qx.present m),
      )

  -- A certificate two rounds above a supported leader has a parent among the supporters.
  meet_support :
      (r : Round) (d : Digest) (l x : Certificate)
      → IsSupported c dag r d l
      → HasQuorum c dag (suc (suc r)) x
      → (authors : Authors) × (e : Entry) × (get (suc r) dag ≡ some authors)
        × Memᴰ e.1 (values authors)
        × (contains x.header.parents e.1.0 ≡ true)
        × (contains e.1.1.header.parents d ≡ true)
  meet_support r d l x s q =
      let below : q.below ≡ suc r = omega (arith, q.next) in
      let same : q.authors ≡ s.authors =
        some-injective _ _ (sym q.present ∙ ap (λ t. get t dag) below ∙ s.present) in
      let enough : quorum_threshold c ≤ weight c (parent_names x s.authors) =
        subst (λ t. quorum_threshold c ≤ weight c (parent_names x t)) same q.enough in
      let distinct : Distinct (keys s.authors) = subst (λ t. Distinct (keys t)) same q.distinct in
      let (n, both) =
        held_by-pos
          (λ n. contains (parent_names x s.authors) n && contains (supporters d s.authors) n)
          c.authorities
          (quorum_meets_validity c (parent_names x s.authors) (supporters d s.authors) valid
            (Distinct-keys-retain (λ e. contains x.header.parents e.1.0) s.authors distinct)
            (Distinct-keys-retain (λ e. contains e.1.1.header.parents d) s.authors distinct) enough
            s.enough) in
      let (e, m, hp, hq) =
        common_entry (λ e. contains x.header.parents e.1.0) (λ e. contains e.1.1.header.parents d)
          s.authors n distinct (ground (arith, both)) (ground (arith, both)) in
      (s.authors, e, s.present, m, hp, hq)

  -- In a DAG where every certificate from two rounds above a supported leader up has a quorum of
  -- parents, a path leads from each such certificate, `top`, down to the leader.
  supported_Descent :
      (r : Round) (d : Digest) (l top : Certificate)
      → IsSupported c dag r d l
      → IsClosed c dag (suc (suc r))
      → HasQuorum c dag (round_of top) top
      → suc (suc r) ≤ round_of top
      → Descent dag top (round_of top - r) l
  supported_Descent r d l top s closed q h =
      let (x, p, qx) =
        climb_down (suc (suc r)) (round_of top - suc (suc r)) (round_of top) top closed refl q
          (omega arith) in
      let (authors, e, present, m, hp, hq) =
        meet_support r d l x s (subst (λ t. HasQuorum c dag t x) (omega arith) qx) in
      let p' = down (suc r) authors e.1.0 e.1.1 p (omega arith) present m hp in
      subst (λ t. Descent dag top t l) (omega arith)
        (down r s.leaders d l p' (omega arith) s.leaders_present s.in_leaders hq)

-- A path keeps every round that it goes through in the DAG.
Descent-present :
    (dag : Dag) (top y : Certificate) (n i : ℕ)
    → Descent dag top n y
    → i < n
    → (authors : Authors) × (get (round_of top - suc i) dag ≡ some authors)
Descent-present dag top y zero i p h = absurd (omega arith)
Descent-present dag top y (suc n) i (down {x = x} r authors d _ p e g m hp) h = elim (dec_lt i n) [
  | yes lower ↦ Descent-present dag top x n i p lower
  | no last ↦ (authors, subst (λ t. get t dag ≡ some authors) (omega arith) g)
]

linked_loop-some :
    (dag : Dag) (k hi : ℕ) (ps : List Certificate)
    → ((i : ℕ) → i < k → (authors : Authors) × (get (hi - i) dag ≡ some authors))
    → (qs : List Certificate) × (linked_loop dag ps (rounds_down k hi) ≡ some qs)
unfolding linked_loop
linked_loop-some dag zero hi ps present = (ps, refl)
linked_loop-some dag (suc k) hi ps present =
    let (authors, e) = present 0 (omega arith) in
    let e' : get hi dag ≡ some authors = subst (λ t. get t dag ≡ some authors) (omega arith) e in
    let (qs, h) = linked_loop-some dag k (hi - 1) (referenced ps authors) (λ i hi'.
      let (au, g) = present (suc i) (omega arith) in
      (au, subst (λ t. get t dag ≡ some au) (omega arith) g)) in
    (qs, rw e' h)

linked-some :
    (dag : Dag) (top prev y : Certificate)
    → Descent dag top (gap top prev) y
    → (b : Bool) × (linked top prev dag ≡ some b)
unfolding linked
linked-some dag top prev y p =
    let (qs, h) = linked_loop-some dag (gap top prev) (round_of top - 1) (top ∷ []) (λ i hi.
      let (au, g) = Descent-present dag top y (gap top prev) i p hi in
      (au, subst (λ t. get t dag ≡ some au) (omega arith) g)) in
    (any (λ x. same_certificate x prev) qs, rw h)

-- On a valid committee, let a leader of round `r` be supported: the certificates of the next round
-- that have it as a parent hold the validity threshold. Let every certificate of the DAG from round
-- `r + 2` up have a quorum of parents in the round below it. Then `linked` answers, without a
-- panic, that every certificate of round `r + 2` or later with a quorum of parents is linked to the
-- leader.
pub supported-linked :
    (c : Committee) (dag : Dag) (r : Round) (d : Digest) (l top : Certificate)
    → IsValid c
    → IsSupported c dag r d l
    → round_of l ≡ r
    → IsClosed c dag (suc (suc r))
    → HasQuorum c dag (round_of top) top
    → suc (suc r) ≤ round_of top
    → linked top l dag ≡ some true
supported-linked c dag r d l top valid s e closed q h =
    let path =
      subst (λ t. Descent dag top t l) (ap (λ t. round_of top - t) (sym e))
        (supported_Descent c valid dag r d l top s closed q h) in
    let (b, answer) = linked-some dag top l l path in
    answer ∙ ap some ((linked_iff dag top l b answer).1 (l, path, ground arith))
