-- ===== src/Config/Leaders.antt =====
-- The round-robin of config/src/lib.rs.
use native.Mathlib.Nat.{add-mod_right, mod-add-mod, mod-lt, mod-eq_of_lt, mod-eq-sub-mod}
use sailfish_test.Prelude.{
  ℕ, zero, suc, ◌+◌, ◌%◌, ◌<◌, ◌≡◌, refl, List, [], ◌∷◌, true, some, arith, length-map, get_elem?,
  get_elem?-some, Above, Ascending, contains, keys, ◌∙◌, Bool-cases, ==→eq, ◌==◌, inl, inr, ap,
  some_inj, length, Distinct, Ascending-Distinct, ltb, leb, if◌then◌else◌, ◌-◌, sym,
}
use sailfish_test.Crypto.{PublicKey}
use sailfish_test.Config.{Committee, leader, committee_size, sort, insert_sorted}
use sailfish_test.Config.Stakes.{IsValid}

insert_sorted-Above : (a : ℕ) (xs : List ℕ) → Above a xs → insert_sorted a xs ≡ a ∷ xs
unfolding insert_sorted
insert_sorted-Above a [] s = refl
insert_sorted-Above a (x ∷ xs) s = ground arith

sort-Above : (a : ℕ) (xs : List ℕ) → Above a xs → sort xs ≡ xs
unfolding sort
sort-Above a [] s = refl
sort-Above a (x ∷ xs) s = ground (arith, sort-Above x xs s.1, insert_sorted-Above x xs s.1)

sort-Ascending : (xs : List ℕ) → Ascending xs → sort xs ≡ xs
unfolding sort
sort-Ascending [] s = refl
sort-Ascending (x ∷ xs) s = ground (arith, sort-Above x xs s, insert_sorted-Above x xs s)

-- The sort changes nothing: the leader is the key at the seed modulo the size.
pub leader-eq :
    (c : Committee) (seed : ℕ)
    → IsValid c
    → 0 < committee_size c
    → leader c seed ≡ get_elem? (keys c.authorities) (seed % committee_size c)
unfolding leader
leader-eq c seed v h = ground (arith, sort-Ascending (keys c.authorities) v.sorted)

contains_of_get_elem? : (xs : List ℕ) (i a : ℕ) → get_elem? xs i ≡ some a → contains xs a ≡ true
contains_of_get_elem? [] i a h = cc
contains_of_get_elem? (x ∷ xs) zero a h = ground arith
contains_of_get_elem? (x ∷ xs) (suc i) a h = ground (arith, contains_of_get_elem? xs i a)

index_of_contains :
    (xs : List ℕ) (a : ℕ)
    → contains xs a ≡ true
    → (i : ℕ) × (i < length xs) × (get_elem? xs i ≡ some a)
index_of_contains [] a h = cc
index_of_contains (x ∷ xs) a h = elim (Bool-cases (x == a)) [
  | inl same ↦ (0, omega arith, ap some (==→eq x a same))
  | inr other ↦
      let (i, lt, e) = index_of_contains xs a (ground (arith, h, other)) in
      (suc i, omega (arith, lt), e)
]

get_elem?-unique :
    (xs : List ℕ) (i j a : ℕ)
    → Distinct xs
    → get_elem? xs i ≡ some a
    → get_elem? xs j ≡ some a
    → i ≡ j
get_elem?-unique [] i j a d ei ej = cc
get_elem?-unique (x ∷ xs) zero zero a d ei ej = refl
get_elem?-unique (x ∷ xs) zero (suc j) a d ei ej =
    absurd (ground (arith, d.0, some_inj ei, contains_of_get_elem? xs j a ej))
get_elem?-unique (x ∷ xs) (suc i) zero a d ei ej =
    absurd (ground (arith, d.0, some_inj ej, contains_of_get_elem? xs i a ei))
get_elem?-unique (x ∷ xs) (suc i) (suc j) a d ei ej = ap suc (get_elem?-unique xs i j a d.1 ei ej)

-- Less than one turn from a seed on, on a circle of `n` places.
circle :
    (seed n i : ℕ)
    → i < n
    → (seed + i) % n ≡ (if ltb (seed % n + i) n then seed % n + i else seed % n + i - n)
circle seed n i lt =
    let small : seed % n < n = mod-lt seed (omega (arith, lt)) in
    sym (mod-add-mod seed n i) ∙ elim (Bool-cases (ltb (seed % n + i) n)) [
      | inl below ↦ rw below (mod-eq_of_lt (ground (arith, below)))
      | inr above ↦
          rw above
            (mod-eq-sub-mod (ground (arith, above)) ∙ mod-eq_of_lt (omega (arith, small, lt)))
    ]

-- The number of rounds from a seed on until the place `j` comes up.
abbrev turns : ℕ → ℕ → ℕ → ℕ
turns seed n j = if leb (seed % n) j then j - seed % n else j + n - seed % n

turns_lem : (seed n j : ℕ) → j < n → (turns seed n j < n) × ((seed + turns seed n j) % n ≡ j)
turns_lem seed n j lt =
    let small : seed % n < n = mod-lt seed (omega (arith, lt)) in
    let bound : turns seed n j < n = ground (arith, small, lt) in
    (bound, circle seed n (turns seed n j) bound ∙ ground (arith, small, lt))

turns_unique : (seed n i j : ℕ) → i < n → j < n → (seed + i) % n ≡ (seed + j) % n → i ≡ j
turns_unique seed n i j li lj e =
    let small : seed % n < n = mod-lt seed (omega (arith, li)) in
    let same = sym (circle seed n i li) ∙ e ∙ circle seed n j lj in ground (arith, small, same)

-- There is a leader for every seed, at its place.
pub leader-some :
    (c : Committee) (seed : ℕ)
    → IsValid c
    → 0 < committee_size c
    → (name : PublicKey) × (leader c seed ≡ some name)
      × (get_elem? (keys c.authorities) (seed % committee_size c) ≡ some name)
unfolding committee_size
leader-some c seed v h =
    let (name, e) =
      get_elem?-some (keys c.authorities) (seed % committee_size c)
        (omega (arith, length-map {0, 0} (λ e. e.0) c.authorities, mod-lt seed h)) in
    (name, leader-eq c seed v h ∙ e, e)

-- On a valid committee that is not empty the leader is the authority at the seed modulo the size, in
-- the order of the keys, and the rounds rotate: in any sequence of as many seeds as there are
-- authorities each authority leads exactly once, and the same one leads after a whole turn.
pub leader-round_robin :
    (c : Committee) (seed : ℕ)
    → IsValid c
    → 0 < committee_size c
    → ((name : PublicKey) × (get_elem? (keys c.authorities) (seed % committee_size c) ≡ some name)
        × (contains (keys c.authorities) name ≡ true)
        × (leader c seed ≡ some name)
        × (leader c (seed + committee_size c) ≡ some name))
      × ((name : PublicKey)
          → contains (keys c.authorities) name ≡ true
          → (i : ℕ) × (i < committee_size c)
            × (leader c (seed + i) ≡ some name)
            × ((j : ℕ) → j < committee_size c → leader c (seed + j) ≡ some name → j ≡ i))
unfolding committee_size
leader-round_robin c seed v h =
    let size : length (keys c.authorities) ≡ committee_size c =
      length-map {0, 0} (λ e. e.0) c.authorities in
    let (name, l, e) = leader-some c seed v h in
    (
      (
        name,
        e,
        contains_of_get_elem? _ _ name e,
        l,
        leader-eq c (seed + committee_size c) v h ∙ rw (add-mod_right seed (committee_size c)) e,
      ),
      λ a known.
          let (j, lt, there) = index_of_contains (keys c.authorities) a known in
          let (bound, at) = turns_lem seed (committee_size c) j (omega (arith, lt, size)) in
          (
            turns seed (committee_size c) j,
            bound,
            leader-eq c _ v h ∙ ap (get_elem? (keys c.authorities)) at ∙ there,
            λ i li led.
                turns_unique seed (committee_size c) i (turns seed (committee_size c) j) li bound (
                  get_elem?-unique (keys c.authorities) _ _ a (Ascending-Distinct _ v.sorted)
                    (sym (leader-eq c _ v h) ∙ led) there
                  ∙ sym at),
          ),
    )
