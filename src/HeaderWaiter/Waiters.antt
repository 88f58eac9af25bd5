-- ===== src/HeaderWaiter/Waiters.antt =====
-- The waiters of primary/src/header_waiter.rs, and which of them are cancelled.
use sailfish_test.Prelude.{
  ℕ, zero, suc, ◌+◌, ◌≡◌, refl, ◌∙◌, inl, inr, List, [], ◌∷◌, ◌++◌, Bool, false, not, ◌&&◌, some,
  arith, ◌==◌, ltb, leb, if◌then◌else◌, retain, remove, contains, contains_key, keys, any,
  get_elem?, Distinct, Bool-cases, ==→eq, some_inj, contains-keys-retain,
}
use sailfish_test.Crypto.{Digest}
use sailfish_test.Messages.{Round}
use sailfish_test.HeaderWaiter.{Waiter, cancel, cancel_old, take_waiter}

abbrev pub is_live : Digest → Waiter → Bool
is_live id w = w.deliver.id == id && not w.cancelled

-- How many waiters of a header are not cancelled.
abbrev pub live : Digest → List Waiter → ℕ
live id [] = 0
live id (w ∷ ws) = let rest = live id ws in if is_live id w then suc rest else rest

pub live-append : (id : Digest) (ws us : List Waiter) → live id (ws ++ us) ≡ live id ws + live id us
live-append id [] us = omega arith
live-append id (w ∷ ws) us = ground (arith, live-append id ws us)

pub live-cancel :
    (j id : Digest) (ws : List Waiter) → live id (cancel j ws) ≡ (if j == id then 0 else live id ws)
unfolding cancel
live-cancel j id [] = ground arith
live-cancel j id (w ∷ ws) = ground (arith, live-cancel j id ws)

pub live-take_waiter :
    (id : Digest) (i : ℕ) (ws : List Waiter) (w : Waiter)
    → get_elem? ws i ≡ some w
    → live id ws ≡ live id (take_waiter i ws) + (if is_live id w then 1 else 0)
unfolding take_waiter
live-take_waiter id i [] w e = cc
live-take_waiter id zero (v ∷ ws) w e = ground (arith, some_inj e)
live-take_waiter id (suc i) (v ∷ ws) w e = ground (arith, live-take_waiter id i ws w e)

-- The round of a pending header is collected.
abbrev pub is_old : Round → Digest → List (Digest × Round) → Bool
is_old gc_round id m = any (λ e. e.0 == id && leb e.1 gc_round) m

pub live-cancel_old :
    (g : Round) (id : Digest) (m : List (Digest × Round)) (ws : List Waiter)
    → live id (cancel_old g m ws) ≡ (if is_old g id m then 0 else live id ws)
unfolding cancel_old
live-cancel_old g id [] ws = refl
live-cancel_old g id ((j, r) ∷ m) ws =
    ground (arith, live-cancel_old g id m ws, live-cancel j id (cancel_old g m ws))

pub is_old-absent :
    (g : Round) (id : Digest) (m : List (Digest × Round))
    → contains (keys m) id ≡ false
    → is_old g id m ≡ false
is_old-absent g id [] h = refl
is_old-absent g id ((j, r) ∷ m) h = ground (arith, is_old-absent g id m)

pub contains_key-recent :
    (g : Round) (id : Digest) (m : List (Digest × Round))
    → Distinct (keys m)
    → contains_key id (retain (λ e. ltb g e.1) m) ≡ (contains_key id m && not (is_old g id m))
contains_key-recent g id [] d = refl
contains_key-recent g id ((j, r) ∷ m) d = elim (Bool-cases (j == id)) [
  | inl same ↦ elim (Bool-cases (ltb g r)) [
    | inl recent ↦ ground (arith, same, recent, ==→eq j id same, is_old-absent g j m d.0)
    | inr old ↦
        ground (arith, same, old, ==→eq j id same, contains-keys-retain (λ e. ltb g e.1) m j d.0)
  ]
  | inr other ↦ ground (arith, other, contains_key-recent g id m d.1)
]

pub contains_key-remove :
    (k id : ℕ) (m : List (ℕ × Round))
    → Distinct (keys m)
    → contains_key id (remove k m) ≡ (not (k == id) && contains_key id m)
contains_key-remove k id [] d = ground arith
contains_key-remove k id ((j, w) ∷ m) d = ground (arith, d.0, contains_key-remove k id m d.1)

pub Distinct-keys-remove :
    (k : ℕ) (m : List (ℕ × Round)) → Distinct (keys m) → Distinct (keys (remove k m))
Distinct-keys-remove k [] d = tt
Distinct-keys-remove k ((j, w) ∷ m) d = elim (Bool-cases (j == k)) [
  | inl hit ↦ rw hit d.1
  | inr miss ↦
      rw miss (contains_key-remove k j m d.1 ∙ ground (arith, d.0), Distinct-keys-remove k m d.1)
]
