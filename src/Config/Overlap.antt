-- ===== src/Config/Overlap.antt =====
-- The thresholds of config/src/lib.rs, and the stake that two sets of names have in common.
use sailfish_test.Prelude.{
  ℕ, ◌+◌, ◌-◌, ◌*◌, ◌/◌, ◌≤◌, ◌<◌, ◌≡◌, List, Bool, ◌&&◌, ◌||◌, arith, Distinct, Ascending-Distinct,
  contains,
}
use sailfish_test.Crypto.{PublicKey}
use sailfish_test.Config.{Committee, quorum_threshold, validity_threshold}
use sailfish_test.Config.Stakes.{
  Authorities, IsValid, held_by, stake_sum, weight, total_votes-eq, held_by-le, held_by-split,
  weight-eq-held_by,
}

-- The largest stake that may be faulty: f, where the total is 3f + 1 + k with k < 3.
abbrev pub max_faulty : Committee → ℕ
max_faulty c = (stake_sum c.authorities - 1) / 3

-- On a valid committee that has some stake, the quorum threshold is the total stake less `f` and
-- the validity threshold is `f + 1`, where `f` is a third of the total less one, rounded down.
pub threshold_values :
    (c : Committee)
    → IsValid c
    → 0 < stake_sum c.authorities
    → (quorum_threshold c ≡ stake_sum c.authorities - max_faulty c)
      × (validity_threshold c ≡ max_faulty c + 1)
unfolding quorum_threshold validity_threshold
threshold_values c v h =
    (omega (arith, total_votes-eq c v, v.bounded), omega (arith, total_votes-eq c v, v.bounded))

pub quorum_eq :
    (c : Committee) → IsValid c → quorum_threshold c ≡ 2 * stake_sum c.authorities / 3 + 1
unfolding quorum_threshold
quorum_eq c v = omega (arith, total_votes-eq c v, v.bounded)

pub validity_eq :
    (c : Committee) → IsValid c → validity_threshold c ≡ (stake_sum c.authorities + 2) / 3
unfolding validity_threshold
validity_eq c v = omega (arith, total_votes-eq c v, v.bounded)

-- Stake in two sets that together reach a quorum and a validity threshold meets.
pub held_overlap :
    (p q : PublicKey → Bool) (l : Authorities)
    → held_by p l + held_by q l ≤ held_by (λ n. p n && q n) l + stake_sum l
held_overlap p q l = omega (arith, held_by-split p q l, held_by-le (λ n. p n || q n) l)

-- On a valid committee, two lists of distinct names that each reach the quorum threshold have in
-- common authorities that hold at least the validity threshold.
pub quorum_overlap :
    (c : Committee) (xs ys : List PublicKey)
    → IsValid c
    → Distinct xs
    → Distinct ys
    → quorum_threshold c ≤ weight c xs
    → quorum_threshold c ≤ weight c ys
    → validity_threshold c ≤ held_by (λ n. contains xs n && contains ys n) c.authorities
quorum_overlap c xs ys v dx dy hx hy = omega (
  arith,
  quorum_eq c v,
  validity_eq c v,
  weight-eq-held_by c xs (Ascending-Distinct _ v.sorted) dx,
  weight-eq-held_by c ys (Ascending-Distinct _ v.sorted) dy,
  held_overlap (contains xs) (contains ys) c.authorities,
)

-- A list of distinct names that reaches the quorum threshold and one that reaches the validity
-- threshold have in common authorities that hold some stake.
pub quorum_meets_validity :
    (c : Committee) (xs ys : List PublicKey)
    → IsValid c
    → Distinct xs
    → Distinct ys
    → quorum_threshold c ≤ weight c xs
    → validity_threshold c ≤ weight c ys
    → 0 < held_by (λ n. contains xs n && contains ys n) c.authorities
quorum_meets_validity c xs ys v dx dy hx hy = omega (
  arith,
  quorum_eq c v,
  validity_eq c v,
  weight-eq-held_by c xs (Ascending-Distinct _ v.sorted) dx,
  weight-eq-held_by c ys (Ascending-Distinct _ v.sorted) dy,
  held_overlap (contains xs) (contains ys) c.authorities,
)
