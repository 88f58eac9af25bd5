-- ===== src/Prelude/Lists.antt =====
-- Lists measured and indexed by native numbers, under the library's names, with Boolean tests.
use Prim.Native.Nat.{ℕ, zero, suc, ◌+◌, ◌<◌}
use mathlib.Core.Path.{◌≡◌, refl, ap}
use mathlib.Core.Bool.{Bool, true, false, ◌||◌, ◌&&◌}
use mathlib.Core.List.{List, [], ◌∷◌, ◌++◌, map, Memᴰ}
use mathlib.Core.Logic.{inl, inr}
use mathlib.Core.Option.{Option, none, some}
use native.Mathlib.Omega.{arith}
use sailfish_test.Prelude.Tests.{if◌then◌else◌, Bool-cases}

module _ {ℓ} {A : Type ℓ} where
  abbrev pub length : List A → ℕ
  length [] = 0
  length (x ∷ xs) = suc (length xs)

  abbrev pub get_elem? : List A → ℕ → Option A
  get_elem? [] i = none
  get_elem? (x ∷ xs) zero = some x
  get_elem? (x ∷ xs) (suc i) = get_elem? xs i

  -- `Iterator::any`, `all`, `find` and `filter` (or `retain`) by a Boolean test.
  abbrev pub take : ℕ → List A → List A
  take zero xs = []
  take (suc i) [] = []
  take (suc i) (x ∷ xs) = x ∷ take i xs

  abbrev pub any : (A → Bool) → List A → Bool
  any p [] = false
  any p (x ∷ xs) = p x || any p xs

  abbrev pub all : (A → Bool) → List A → Bool
  all p [] = true
  all p (x ∷ xs) = p x && all p xs

  abbrev pub find : (A → Bool) → List A → Option A
  find p [] = none
  find p (x ∷ xs) = if p x then some x else find p xs

  abbrev pub retain : (A → Bool) → List A → List A
  retain p [] = []
  retain p (x ∷ xs) = let rest = retain p xs in if p x then x ∷ rest else rest

  abbrev pub is_empty : List A → Bool
  is_empty [] = true
  is_empty (x ∷ xs) = false

  pub append_assoc : (xs ys zs : List A) → (xs ++ ys) ++ zs ≡ xs ++ (ys ++ zs)
  append_assoc [] ys zs = refl
  append_assoc (x ∷ xs) ys zs = ap (λ l. x ∷ l) (append_assoc xs ys zs)

  pub append_nil : (xs : List A) → xs ++ [] ≡ xs
  append_nil [] = refl
  append_nil (x ∷ xs) = ap (λ l. x ∷ l) (append_nil xs)

  pub retain-append :
      (t : A → Bool) (xs ys : List A) → retain t (xs ++ ys) ≡ retain t xs ++ retain t ys
  retain-append t [] ys = refl
  retain-append t (x ∷ xs) ys = elim (Bool-cases (t x)) [
    | inl keep ↦ rw keep (ap (λ l. x ∷ l) (retain-append t xs ys))
    | inr drop ↦ rw drop (retain-append t xs ys)
  ]

  pub length-append : (xs ys : List A) → length (xs ++ ys) ≡ length xs + length ys
  length-append [] ys = omega arith
  length-append (x ∷ xs) ys = omega (arith, length-append xs ys)

  pub get_elem?-some : (xs : List A) (i : ℕ) → i < length xs → (a : A) × (get_elem? xs i ≡ some a)
  get_elem?-some [] i h = elim h [ ]
  get_elem?-some (x ∷ xs) zero h = (x, refl)
  get_elem?-some (x ∷ xs) (suc i) h = get_elem?-some xs i (omega arith)

pub length-map {ℓ κ} :
    {A : Type ℓ} {B : Type κ} (f : A → B) (xs : List A) → length (map f xs) ≡ length xs
length-map f [] = refl
length-map f (x ∷ xs) = ap suc (length-map f xs)

-- A predicate that holds of every element.
abbrev pub All {ℓ κ} : {A : Type ℓ} → (A → Type κ) → List A → Type κ
All P [] = Unit
All P (x ∷ xs) = P x × All P xs

pub All-append {ℓ κ} :
    {A : Type ℓ} (P : A → Type κ) (xs ys : List A) → All P xs → All P ys → All P (xs ++ ys)
All-append P [] ys a b = b
All-append P (x ∷ xs) ys (a, rest) b = (a, All-append P xs ys rest b)

pub retain-All {ℓ} : {A : Type ℓ} (t : A → Bool) (xs : List A) → All (λ x. t x ≡ true) (retain t xs)
retain-All t [] = tt
retain-All t (x ∷ xs) = elim (Bool-cases (t x)) [
  | inl keep ↦ rw keep (keep, retain-All t xs)
  | inr drop ↦ rw drop (retain-All t xs)
]

pub All-retain {ℓ κ} :
    {A : Type ℓ} (P : A → Type κ) (t : A → Bool) (xs : List A) → All P xs → All P (retain t xs)
All-retain P t [] a = tt
All-retain P t (x ∷ xs) a = elim (Bool-cases (t x)) [
  | inl keep ↦ rw keep (a.0, All-retain P t xs a.1)
  | inr drop ↦ rw drop (All-retain P t xs a.1)
]

pub retain-Memᴰ {ℓ} :
    {A : Type ℓ} (t : A → Bool) (xs : List A) (x : A)
    → Memᴰ x xs
    → t x ≡ true
    → Memᴰ x (retain t xs)
retain-Memᴰ t [] x m h = elim m [ ]
retain-Memᴰ t (y ∷ xs) x (Memᴰ.head e) h = rw (← ap t e, h) (Memᴰ.head e)
retain-Memᴰ t (y ∷ xs) x (Memᴰ.tail m) h = elim (Bool-cases (t y)) [
  | inl keep ↦ rw keep (Memᴰ.tail (retain-Memᴰ t xs x m h))
  | inr drop ↦ rw drop (retain-Memᴰ t xs x m h)
]

pub All-widen {ℓ κ μ} :
    {A : Type ℓ} (P : A → Type κ) (Q : A → Type μ)
    → ((x : A) → P x → Q x)
    → (xs : List A) → All P xs
    → All Q xs
All-widen P Q f [] h = tt
All-widen P Q f (x ∷ xs) h = (f x h.0, All-widen P Q f xs h.1)

pub get_elem?-append {ℓ} :
    {A : Type ℓ} (x : A) (xs ys : List A) (i : ℕ)
    → get_elem? xs i ≡ some x
    → get_elem? (xs ++ ys) i ≡ some x
get_elem?-append x [] ys i e = cc
get_elem?-append x (y ∷ xs) ys zero e = e
get_elem?-append x (y ∷ xs) ys (suc i) e = get_elem?-append x xs ys i e
