-- ===== src/Worker/QuorumWaiter.antt =====
-- worker/src/quorum_waiter.rs: a batch is delivered when enough authorities acknowledge it. The
-- acknowledgements come in any order; a cancelled handler counts like one.
use sailfish_test.Prelude.{
  ◌+◌, ◌<◌, ◌≡◌, refl, List, [], ◌∷◌, Bool, true, false, not, ◌&&◌, arith, leb, if◌then◌else◌,
  is_empty, add32, u32_mod, Distinct,
}
use sailfish_test.Crypto.{PublicKey}
use sailfish_test.Config.{Committee, Stake, stake, quorum_threshold}
use sailfish_test.Config.Stakes.{IsValid, weight, weight-le-stake_sum}

-- The `while let` over the acknowledgements: whether the batch is delivered.
unfoldable pub wait_for_quorum : Committee → Stake → List PublicKey → Bool
wait_for_quorum c total_stake [] = false
wait_for_quorum c total_stake (name ∷ acks) =
    let total = add32 total_stake (stake c name) in
    let rest = wait_for_quorum c total acks in if leb (quorum_threshold c) total then true else rest

wait_for_quorum-fits :
    (c : Committee) (total : Stake) (acks : List PublicKey)
    → total + weight c acks < u32_mod
    → wait_for_quorum c total acks
      ≡ (not (is_empty acks) && leb (quorum_threshold c) (total + weight c acks))
unfolding wait_for_quorum
wait_for_quorum-fits c total [] fits = refl
wait_for_quorum-fits c total (name ∷ []) fits =
    let sum : add32 total (stake c name) ≡ total + stake c name = omega (arith, fits) in
    ground (arith, sum)
wait_for_quorum-fits c total (name ∷ next ∷ acks) fits =
    let sum : add32 total (stake c name) ≡ total + stake c name = omega (arith, fits) in
    let rest = wait_for_quorum-fits c (total + stake c name) (next ∷ acks) (omega (arith, fits)) in
    rw (wait_for_quorum, sum, rest) (ground arith)

-- On a valid committee, and with acknowledgements of distinct other authorities, a batch is delivered
-- exactly when at least one has acknowledged it and those that have hold a quorum together with this
-- authority.
pub wait_for_quorum_iff :
    (c : Committee) (name : PublicKey) (acks : List PublicKey)
    → IsValid c
    → Distinct (name ∷ acks)
    → wait_for_quorum c (stake c name) acks
      ≡ (not (is_empty acks) && leb (quorum_threshold c) (weight c (name ∷ acks)))
wait_for_quorum_iff c name acks v d =
    wait_for_quorum-fits c (stake c name) acks
      (omega (arith, weight-le-stake_sum c (name ∷ acks) v d, v.bounded))
