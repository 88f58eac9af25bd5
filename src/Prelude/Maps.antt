-- ===== src/Prelude/Maps.antt =====
-- `HashSet` and `HashMap` keyed by numbers: lists, and association lists in order of insertion.
-- The order in which a hash map is read is not fixed by the program.
use Prim.Native.Nat.{ℕ, ◌≤◌, ◌<◌}
use mathlib.Core.Path.{◌≡◌, refl}
use mathlib.Core.Bool.{Bool, true, false, ◌||◌}
use mathlib.Core.List.{List, [], ◌∷◌, ◌++◌, map, Memᴰ}
use mathlib.Core.Option.{Option, none, some}
use native.Mathlib.Omega.{arith}
use sailfish_test.Prelude.Tests.{if◌then◌else◌, ◌==◌, ==→eq, Bool-cases}
use mathlib.Core.Logic.{inl, inr}
use sailfish_test.Prelude.Lists.{All, retain}

abbrev pub unwrap_or {ℓ} : {A : Type ℓ} → A → Option A → A
unwrap_or d none = d
unwrap_or d (some a) = a

-- `HashSet::contains`.
abbrev pub contains : List ℕ → ℕ → Bool
contains [] a = false
contains (x ∷ xs) a = x == a || contains xs a

-- `HashSet::insert`, without its result: an element is kept once.
abbrev pub set_insert : ℕ → List ℕ → List ℕ
set_insert a xs = if contains xs a then xs else xs ++ a ∷ []

pub set_insert_fresh :
    (a : ℕ) (xs : List ℕ) → contains xs a ≡ false → set_insert a xs ≡ xs ++ a ∷ []
set_insert_fresh a xs h = rw h

-- No name occurs twice.
abbrev pub Distinct : List ℕ → Type 0
Distinct [] = Unit {0}
Distinct (x ∷ xs) = (contains xs x ≡ false) × Distinct xs

-- Strictly ascending, as the keys of a `BTreeMap`.
abbrev pub Above : ℕ → List ℕ → Type 0
Above a [] = Unit {0}
Above a (x ∷ xs) = (a < x) × Above x xs

abbrev pub Ascending : List ℕ → Type 0
Ascending [] = Unit {0}
Ascending (x ∷ xs) = Above x xs

pub contains-append :
    (xs ys : List ℕ) (a : ℕ) → contains (xs ++ ys) a ≡ (contains xs a || contains ys a)
contains-append [] ys a = refl
contains-append (x ∷ xs) ys a = ground (arith, contains-append xs ys a)

pub contains-set_insert :
    (a b : ℕ) (xs : List ℕ) → contains (set_insert a xs) b ≡ (contains xs b || a == b)
contains-set_insert a b xs = elim (Bool-cases (contains xs a)) [
  | inl old ↦ elim (Bool-cases (a == b)) [
    | inl same ↦ ground (arith, old, same)
    | inr other ↦ ground (arith, old, other)
  ]
  | inr fresh ↦ ground (arith, fresh, contains-append xs (a ∷ []) b)
]

pub Distinct-snoc :
    (xs : List ℕ) (a : ℕ) → Distinct xs → contains xs a ≡ false → Distinct (xs ++ a ∷ [])
Distinct-snoc [] a d h = (refl, tt)
Distinct-snoc (x ∷ xs) a d h =
    (ground (arith, contains-append xs (a ∷ []) x), Distinct-snoc xs a d.1 (ground arith))

contains-Above : (a b : ℕ) (xs : List ℕ) → a ≤ b → Above b xs → contains xs a ≡ false
contains-Above a b [] h s = refl
contains-Above a b (x ∷ xs) h s = ground (arith, contains-Above a x xs)

Above-Distinct : (a : ℕ) (xs : List ℕ) → Above a xs → Distinct xs
Above-Distinct a [] s = tt
Above-Distinct a (x ∷ xs) s = (contains-Above x x xs (omega arith) s.1, Above-Distinct x xs s.1)

pub Ascending-Distinct : (xs : List ℕ) → Ascending xs → Distinct xs
Ascending-Distinct [] s = tt
Ascending-Distinct (x ∷ xs) s = (contains-Above x x xs (omega arith) s, Above-Distinct x xs s)

module _ {ℓ} {V : Type ℓ} where
  abbrev pub keys : List (ℕ × V) → List ℕ
  keys m = map (λ e. e.0) m

  abbrev pub values : List (ℕ × V) → List V
  values m = map (λ e. e.1) m

  -- `HashMap::get`, `contains_key`, `insert` and `remove`.
  abbrev pub get : ℕ → List (ℕ × V) → Option V
  get k [] = none
  get k ((j, v) ∷ m) = if j == k then some v else get k m

  abbrev pub contains_key : ℕ → List (ℕ × V) → Bool
  contains_key k m = contains (keys m) k

  abbrev pub insert : ℕ → V → List (ℕ × V) → List (ℕ × V)
  insert k v [] = (k, v) ∷ []
  insert k v ((j, w) ∷ m) = let rest = insert k v m in if j == k then (k, v) ∷ m else (j, w) ∷ rest

  abbrev pub remove : ℕ → List (ℕ × V) → List (ℕ × V)
  remove k [] = []
  remove k ((j, w) ∷ m) = let rest = remove k m in if j == k then m else (j, w) ∷ rest

  pub get-insert :
      (k j : ℕ) (v : V) (m : List (ℕ × V))
      → get j (insert k v m) ≡ (if k == j then some v else get j m)
  get-insert k j v [] = refl
  get-insert k j v ((i, w) ∷ m) = ground (arith, get-insert k j v m)

  pub get-Memᴰ : (k : ℕ) (v : V) (m : List (ℕ × V)) → get k m ≡ some v → Memᴰ (k, v) m
  get-Memᴰ k v [] h = cc
  get-Memᴰ k v ((j, w) ∷ m) h = elim (Bool-cases (j == k)) [
    | inl hit ↦ Memᴰ.head (ground (arith, hit, h))
    | inr miss ↦ Memᴰ.tail (get-Memᴰ k v m (rw miss at h))
  ]

  pub get-retain :
      (t : ℕ → Bool) (k : ℕ) (m : List (ℕ × V))
      → t k ≡ true
      → get k (retain (λ e. t e.0) m) ≡ get k m
  get-retain t k [] h = refl
  get-retain t k ((i, w) ∷ m) h = elim (Bool-cases (t i)) [
    | inl keep ↦ ground (arith, keep, get-retain t k m h)
    | inr drop ↦ ground (arith, drop, h, get-retain t k m h)
  ]

  pub contains-keys-retain :
      (t : ℕ × V → Bool) (es : List (ℕ × V)) (n : ℕ)
      → contains (keys es) n ≡ false
      → contains (keys (retain t es)) n ≡ false
  contains-keys-retain t [] n h = refl
  contains-keys-retain t (e ∷ es) n h = elim (Bool-cases (t e)) [
    | inl keep ↦ rw keep (ground (arith, contains-keys-retain t es n))
    | inr drop ↦ rw drop (contains-keys-retain t es n (ground arith))
  ]

  pub Distinct-keys-retain :
      (t : ℕ × V → Bool) (es : List (ℕ × V)) → Distinct (keys es) → Distinct (keys (retain t es))
  Distinct-keys-retain t [] d = tt
  Distinct-keys-retain t (e ∷ es) d = elim (Bool-cases (t e)) [
    | inl keep ↦ rw keep (contains-keys-retain t es e.0 d.0, Distinct-keys-retain t es d.1)
    | inr drop ↦ rw drop (Distinct-keys-retain t es d.1)
  ]

  contains-keys-insert :
      (k j : ℕ) (v : V) (m : List (ℕ × V))
      → contains (keys m) j ≡ false
      → (k == j) ≡ false
      → contains (keys (insert k v m)) j ≡ false
  contains-keys-insert k j v [] h d = ground (arith, d)
  contains-keys-insert k j v ((i, w) ∷ m) h d = elim (Bool-cases (i == k)) [
    | inl hit ↦ rw hit (ground (arith, d))
    | inr miss ↦ rw miss (ground (arith, contains-keys-insert k j v m))
  ]

  pub Distinct-keys-insert :
      (k : ℕ) (v : V) (m : List (ℕ × V)) → Distinct (keys m) → Distinct (keys (insert k v m))
  Distinct-keys-insert k v [] d = (refl, tt)
  Distinct-keys-insert k v ((i, w) ∷ m) d = elim (Bool-cases (i == k)) [
    | inl hit ↦ rw hit (rw (← ==→eq i k hit) d)
    | inr miss ↦
        rw miss
          (contains-keys-insert k i v m d.0 (ground (arith, miss)), Distinct-keys-insert k v m d.1)
  ]

  pub All-insert {κ} :
      (P : ℕ × V → Type κ) (k : ℕ) (v : V) (m : List (ℕ × V))
      → P (k, v)
      → All P m
      → All P (insert k v m)
  All-insert P k v [] h a = (h, tt)
  All-insert P k v ((i, w) ∷ m) h a = elim (Bool-cases (i == k)) [
    | inl hit ↦ rw hit (h, a.1)
    | inr miss ↦ rw miss (a.0, All-insert P k v m h a.1)
  ]

  pub contains_key-insert :
      (k j : ℕ) (v : V) (m : List (ℕ × V))
      → contains_key j (insert k v m) ≡ (k == j || contains_key j m)
  contains_key-insert k j v [] = refl
  contains_key-insert k j v ((i, w) ∷ m) = ground (arith, contains_key-insert k j v m)
