-- ===== src/Consensus/Order/Links.antt =====
-- `linked` of consensus/src/lib.rs, and the paths of parents in the DAG.
use mathlib.Core.List.{Memᴰ}
use mathlib.Core.Option.{some-injective}
use sailfish_test.Prelude.{
  ℕ, zero, suc, ◌+◌, ◌-◌, ◌≤◌, ◌<◌, ◌≡◌, refl, ◌↔◌, inl, inr, List, [], ◌∷◌, map, Bool, true, some,
  arith, any, retain, contains, get, values, Bool-cases, subst, sym, ap, ◌∙◌, Option-cases,
}
use sailfish_test.Crypto.{Digest}
use sailfish_test.Messages.{Round, Certificate, round_of, same_certificate}
use sailfish_test.Consensus.State.{Authors, Dag}
use sailfish_test.Consensus.Order.{rounds_down, is_parent_of, referenced, linked_loop, linked}

-- `x` stands `n` rounds below `top`, at the end of a path of parents through the entries of the DAG.
pub data Descent (dag : Dag) (top : Certificate) : ℕ → Certificate → Type 0 where
  here : Descent dag top zero top
  down :
      {n : ℕ} {x : Certificate} (r : Round) (authors : Authors) (d : Digest) (y : Certificate)
      → Descent dag top n x
      → r + suc n ≡ round_of top
      → get r dag ≡ some authors
      → Memᴰ (d, y) (values authors)
      → contains x.header.parents d ≡ true
      → Descent dag top (suc n) y

any-Memᴰ {ℓ} :
    {A : Type ℓ} (p : A → Bool) (xs : List A) → any p xs ≡ true → (x : A) × Memᴰ x xs × (p x ≡ true)
any-Memᴰ p [] h = cc
any-Memᴰ p (x ∷ xs) h = elim (Bool-cases (p x)) [
  | inl hit ↦ (x, Memᴰ.head refl, hit)
  | inr miss ↦ let (y, m, e) = any-Memᴰ p xs (ground (arith, miss)) in (y, Memᴰ.tail m, e)
]

Memᴰ-any {ℓ} :
    {A : Type ℓ} (p : A → Bool) (xs : List A) (x : A) → Memᴰ x xs → p x ≡ true → any p xs ≡ true
Memᴰ-any p [] x m e = elim m [ ]
Memᴰ-any p (y ∷ xs) x (Memᴰ.head h) e = ground (arith, h)
Memᴰ-any p (y ∷ xs) x (Memᴰ.tail m) e = ground (arith, Memᴰ-any p xs x m e)

abbrev Entries : Type 0
Entries = List (Digest × Certificate)

-- The certificate has an entry whose digest is a parent of some child.
abbrev HasChild : List Certificate → Entries → Certificate → Type 0
HasChild children es y =
    (d : Digest) × (x : Certificate) × Memᴰ (d, y) es
    × Memᴰ x children
    × (contains x.header.parents d ≡ true)

HasChild-tail :
    (children : List Certificate) (e : Digest × Certificate) (es : Entries) (y : Certificate)
    → HasChild children es y
    → HasChild children (e ∷ es) y
HasChild-tail children e es y (d, x, me, mx, h) = (d, x, Memᴰ.tail me, mx, h)

HasChild-cons :
    (children : List Certificate) (d : Digest) (z : Certificate) (es : Entries) (y : Certificate)
    (rest : List Certificate)
    → (x : Certificate) × Memᴰ x children × (contains x.header.parents d ≡ true)
    → (Memᴰ y rest → HasChild children es y)
    → Memᴰ y (z ∷ rest)
    → HasChild children ((d, z) ∷ es) y
HasChild-cons children d z es y rest (x, mx, e) below (Memᴰ.head h) =
    (d, x, Memᴰ.head (ap (λ c. (d, c)) h), mx, e)
HasChild-cons children d z es y rest _ below (Memᴰ.tail m) =
    HasChild-tail children (d, z) es y (below m)

Memᴰ-referenced :
    (children : List Certificate) (es : Entries) (y : Certificate)
    → Memᴰ y (map (λ e. e.1) (retain (λ e. is_parent_of children e.0) es))
    → HasChild children es y
Memᴰ-referenced children [] y m = elim m [ ]
Memᴰ-referenced children ((d, z) ∷ es) y m = elim (Bool-cases (is_parent_of children d)) [
  | inr no_child ↦
      HasChild-tail children (d, z) es y (Memᴰ-referenced children es y (rw no_child at m))
  | inl child ↦
      HasChild-cons children d z es y _ (any-Memᴰ _ children child) (Memᴰ-referenced children es y)
        (rw child at m)
]

referenced-Memᴰ :
    (children : List Certificate) (es : Entries) (d : Digest) (x y : Certificate)
    → Memᴰ (d, y) es
    → Memᴰ x children
    → contains x.header.parents d ≡ true
    → Memᴰ y (map (λ e. e.1) (retain (λ e. is_parent_of children e.0) es))
referenced-Memᴰ children [] d x y m mx h = elim m [ ]
referenced-Memᴰ children ((d', z) ∷ es) d x y (Memᴰ.head e) mx h =
    let child : is_parent_of children d' ≡ true =
      rw (← ap (λ t. t.0) e) (Memᴰ-any _ children x mx h) in
    rw child (Memᴰ.head (ap (λ t. t.1) e))
referenced-Memᴰ children ((d', z) ∷ es) d x y (Memᴰ.tail m) mx h =
    elim (Bool-cases (is_parent_of children d')) [
      | inl child ↦ rw child (Memᴰ.tail (referenced-Memᴰ children es d x y m mx h))
      | inr no_child ↦ rw no_child (referenced-Memᴰ children es d x y m mx h)
    ]

module _ (dag : Dag) (top : Certificate) where
  linked_loop_sound :
      (k n hi : ℕ) (ps qs : List Certificate)
      → ((y : Certificate) → Memᴰ y ps → Descent dag top n y)
      → (0 < k → hi + suc n ≡ round_of top)
      → k ≤ hi + 1
      → linked_loop dag ps (rounds_down k hi) ≡ some qs
      → (y : Certificate) → Memᴰ y qs
      → Descent dag top (n + k) y
  unfolding linked_loop
  linked_loop_sound zero n hi ps qs inv at_level fits h y m =
      subst (λ t. Descent dag top t y) (omega arith)
        (inv y (subst (Memᴰ y) (sym (some-injective _ _ h)) m))
  linked_loop_sound (suc k) n hi ps qs inv at_level fits h y m = elim (Option-cases (get hi dag)) [
    | inl missing ↦ absurd (ground (arith, missing))
    | inr (authors, e) ↦
        subst (λ t. Descent dag top t y) (omega arith)
          (linked_loop_sound k (suc n) (hi - 1) (referenced ps authors) qs
            (λ z mz.
              let (d, x, me, mx, hp) = Memᴰ-referenced ps (values authors) z mz in
              down hi authors d z (inv x mx) (at_level (omega arith)) e me hp)
            (λ pos. omega arith) (omega arith) (rw e at h) y m)
  ]

  -- The round below a level is read from the DAG, and the descents through it are all found.
  referenced-complete :
      (n hi : ℕ) (authors : Authors) (ps : List Certificate)
      → ((y : Certificate) → Descent dag top n y → Memᴰ y ps)
      → hi + suc n ≡ round_of top
      → get hi dag ≡ some authors
      → (y : Certificate) → Descent dag top (suc n) y
      → Memᴰ y (referenced ps authors)
  referenced-complete n hi authors ps all at_level e y (down {x = x} r authors' d _ p re ge me hp) =
      let same : r ≡ hi = omega arith in
      let same' : authors' ≡ authors = some-injective _ _ (sym ge ∙ ap (λ t. get t dag) same ∙ e) in
      referenced-Memᴰ ps (values authors) d x y (subst (λ t. Memᴰ (d, y) (values t)) same' me)
        (all x p) hp

  linked_loop_complete :
      (k n hi : ℕ) (ps qs : List Certificate)
      → ((y : Certificate) → Descent dag top n y → Memᴰ y ps)
      → (0 < k → hi + suc n ≡ round_of top)
      → k ≤ hi + 1
      → linked_loop dag ps (rounds_down k hi) ≡ some qs
      → (y : Certificate) → Descent dag top (n + k) y
      → Memᴰ y qs
  unfolding linked_loop
  linked_loop_complete zero n hi ps qs all at_level fits h y p =
      subst (Memᴰ y) (some-injective _ _ h)
        (all y (subst (λ t. Descent dag top t y) (omega arith) p))
  linked_loop_complete (suc k) n hi ps qs all at_level fits h y p =
      elim (Option-cases (get hi dag)) [
        | inl missing ↦ absurd (ground (arith, missing))
        | inr (authors, e) ↦
            linked_loop_complete k (suc n) (hi - 1) (referenced ps authors) qs
              (referenced-complete n hi authors ps all (at_level (omega arith)) e)
              (λ pos. omega arith) (omega arith) (rw e at h) y
              (subst (λ t. Descent dag top t y) (omega arith) p)
      ]

singleton-Memᴰ : (top y : Certificate) (dag : Dag) → Memᴰ y (top ∷ []) → Descent dag top 0 y
singleton-Memᴰ top y dag (Memᴰ.head h) = subst (Descent dag top 0) (sym h) here
singleton-Memᴰ top y dag (Memᴰ.tail m) = elim m [ ]

Descent-zero : (top y : Certificate) (dag : Dag) → Descent dag top 0 y → Memᴰ y (top ∷ [])
Descent-zero top y dag here = Memᴰ.head refl

-- The number of rounds from `top` down to `prev`.
abbrev pub gap : Certificate → Certificate → ℕ
gap top prev = round_of top - round_of prev

-- Where `linked` does not panic for a missing round, it answers whether a path of parents leads
-- from `top` through the entries of the DAG, one round at each step, to a certificate of the round
-- of `prev` that is equal to `prev`.
pub linked_iff :
    (dag : Dag) (top prev : Certificate) (b : Bool)
    → linked top prev dag ≡ some b
    → (b ≡ true)
      ↔ ((y : Certificate) × Descent dag top (gap top prev) y × (same_certificate y prev ≡ true))
unfolding linked
linked_iff dag top prev b h =
    elim (Option-cases
      (linked_loop dag (top ∷ []) (rounds_down (gap top prev) (round_of top - 1)))) [
        | inl panic ↦ absurd (ground (arith, panic))
        | inr (qs, e) ↦
            let answer : any (λ x. same_certificate x prev) qs ≡ b =
              some-injective _ _ (rw e at h) in
            (
              λ t.
                  let (y, m, s) = any-Memᴰ (λ x. same_certificate x prev) qs (answer ∙ t) in
                  (
                    y,
                    subst (λ n. Descent dag top n y) (omega arith)
                        (linked_loop_sound dag top (gap top prev) 0 (round_of top - 1) (top ∷ []) qs
                          (λ z mz. singleton-Memᴰ top z dag mz) (λ pos. omega arith) (omega arith) e
                          y m),
                    s,
                  ),
              λ t.
                  sym answer
                  ∙ Memᴰ-any (λ x. same_certificate x prev) qs t.0
                      (linked_loop_complete dag top (gap top prev) 0 (round_of top - 1) (top ∷ [])
                        qs (λ z pz. Descent-zero top z dag pz) (λ pos. omega arith) (omega arith) e
                        t.0 (subst (λ n. Descent dag top n t.0) (omega arith) t.1))
                      t.2,
            )
      ]
