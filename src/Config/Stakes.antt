-- ===== src/Config/Stakes.antt =====
-- The stakes of config/src/lib.rs as plain sums, beside the `u32` sums of the program.
use sailfish_test.Prelude.{
  ℕ, ◌+◌, ◌*◌, ◌≤◌, ◌<◌, ◌≡◌, refl, List, [], ◌∷◌, ◌++◌, map, Bool, false, ◌||◌, ◌&&◌, arith,
  u32_mod, if◌then◌else◌, Distinct, Ascending, Ascending-Distinct, contains, keys, values, get,
  none,
}
use sailfish_test.Crypto.{PublicKey}
use sailfish_test.Config.{Authority, Committee, stake, sum32, total_votes, stake_of}

abbrev pub Authorities : Type 0
Authorities = List (PublicKey × Authority)

-- The stake of the authorities whose name passes a test.
abbrev pub held_by : (PublicKey → Bool) → Authorities → ℕ
held_by p [] = 0
held_by p ((name, a) ∷ rest) = (if p name then a.stake else 0) + held_by p rest

abbrev pub stake_sum : Authorities → ℕ
stake_sum [] = 0
stake_sum ((name, a) ∷ rest) = a.stake + stake_sum rest

-- The stake of a list of names, each as often as it stands there.
abbrev pub weight : Committee → List PublicKey → ℕ
weight c [] = 0
weight c (x ∷ xs) = stake c x + weight c xs

-- What the program relies on: the order of a `BTreeMap`, and stakes whose double fits in a `u32`.
pub record IsValid (c : Committee) : Type 0 where
  pub sorted : Ascending (keys c.authorities)
  pub bounded : 2 * stake_sum c.authorities < u32_mod

sum32-eq :
    (l : Authorities) → stake_sum l < u32_mod → sum32 (map (λ a. a.stake) (values l)) ≡ stake_sum l
unfolding sum32
sum32-eq [] h = refl
sum32-eq ((name, a) ∷ rest) h = omega (arith, sum32-eq rest (omega arith))

pub total_votes-eq : (c : Committee) → IsValid c → total_votes c ≡ stake_sum c.authorities
unfolding total_votes
total_votes-eq c v = sum32-eq c.authorities (omega arith)

pub held_by-le : (p : PublicKey → Bool) (l : Authorities) → held_by p l ≤ stake_sum l
held_by-le p [] = omega arith
held_by-le p ((name, a) ∷ rest) = ground (arith, held_by-le p rest)

-- Two sets of names: what both hold, and what one of them holds.
pub held_by-split :
    (p q : PublicKey → Bool) (l : Authorities)
    → held_by p l + held_by q l ≡ held_by (λ n. p n && q n) l + held_by (λ n. p n || q n) l
held_by-split p q [] = refl
held_by-split p q ((name, a) ∷ rest) = ground (arith, held_by-split p q rest)

held_by-nil : (l : Authorities) → held_by (contains []) l ≡ 0
held_by-nil [] = refl
held_by-nil ((name, a) ∷ rest) = omega (arith, held_by-nil rest)

held_by-absent :
    (x : PublicKey) (xs : List PublicKey) (l : Authorities)
    → contains (keys l) x ≡ false
    → held_by (contains (x ∷ xs)) l ≡ held_by (contains xs) l
held_by-absent x xs [] h = refl
held_by-absent x xs ((name, a) ∷ rest) h = ground (arith, held_by-absent x xs rest)

absent-stake : (x : PublicKey) (l : Authorities) → contains (keys l) x ≡ false → get x l ≡ none
absent-stake x [] h = refl
absent-stake x ((name, a) ∷ rest) h = ground (arith, absent-stake x rest)

held_by-cons :
    (x : PublicKey) (xs : List PublicKey) (l : Authorities)
    → contains xs x ≡ false
    → Distinct (keys l)
    → held_by (contains (x ∷ xs)) l ≡ stake_of (get x l) + held_by (contains xs) l
held_by-cons x xs [] h d = refl
held_by-cons x xs ((name, a) ∷ rest) h d =
    ground (arith, held_by-cons x xs rest, held_by-absent x xs rest, absent-stake x rest)

-- Distinct names hold together what the authorities among them hold.
pub weight-eq-held_by :
    (c : Committee) (xs : List PublicKey)
    → Distinct (keys c.authorities)
    → Distinct xs
    → weight c xs ≡ held_by (contains xs) c.authorities
unfolding stake
weight-eq-held_by c [] k d = omega (arith, held_by-nil c.authorities)
weight-eq-held_by c (x ∷ xs) k d =
    omega (arith, held_by-cons x xs c.authorities d.0 k, weight-eq-held_by c xs k d.1)

pub weight-le-stake_sum :
    (c : Committee) (xs : List PublicKey)
    → IsValid c
    → Distinct xs
    → weight c xs ≤ stake_sum c.authorities
weight-le-stake_sum c xs v d = omega (
  arith,
  weight-eq-held_by c xs (Ascending-Distinct _ v.sorted) d,
  held_by-le (contains xs) c.authorities,
)

pub weight-append :
    (c : Committee) (xs ys : List PublicKey) → weight c (xs ++ ys) ≡ weight c xs + weight c ys
weight-append c [] ys = omega arith
weight-append c (x ∷ xs) ys = omega (arith, weight-append c xs ys)
