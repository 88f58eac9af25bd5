-- ===== src/Examples/ConfigCases.antt =====
-- The committee of config/src/lib.rs on four authorities.
use sailfish_test.Prelude.{
  ℕ, ◌%◌, ◌<◌, get_elem?, ◌+◌, ◌-◌, ◌≡◌, refl, true, contains, some, arith, keys,
}
use sailfish_test.Crypto.{PublicKey}
use sailfish_test.Config.{
  committee_size, sum32, total_votes, quorum_threshold, validity_threshold, sort, insert_sorted,
  leader,
}
use sailfish_test.Config.Stakes.{IsValid, stake_sum}
use sailfish_test.Config.Overlap.{max_faulty, threshold_values}
use sailfish_test.Config.Leaders.{leader-round_robin}
use sailfish_test.Examples.Fixtures.{committee}

pub committee-IsValid : IsValid committee
committee-IsValid = record { sorted = omega arith; bounded = omega arith }

pub quorum_of_four : quorum_threshold committee ≡ 3
unfolding quorum_threshold total_votes sum32
quorum_of_four = refl

validity_of_four : validity_threshold committee ≡ 2
unfolding validity_threshold total_votes sum32
validity_of_four = refl

pub leader_of_one : leader committee 1 ≡ some 2
unfolding leader committee_size sort insert_sorted
leader_of_one = refl

threshold_values_example :
    (quorum_threshold committee ≡ stake_sum committee.authorities - max_faulty committee)
    × (validity_threshold committee ≡ max_faulty committee + 1)
threshold_values_example = threshold_values committee committee-IsValid (omega arith)

leader-round_robin_example :
    ((name : PublicKey) × (get_elem? (keys committee.authorities) (6 % committee_size committee)
        ≡ some name)
      × (contains (keys committee.authorities) name ≡ true)
      × (leader committee 6 ≡ some name)
      × (leader committee (6 + committee_size committee) ≡ some name))
    × ((name : PublicKey)
        → contains (keys committee.authorities) name ≡ true
        → (i : ℕ) × (i < committee_size committee)
          × (leader committee (6 + i) ≡ some name)
          × ((j : ℕ) → j < committee_size committee → leader committee (6 + j) ≡ some name → j ≡ i))
unfolding committee_size
leader-round_robin_example = leader-round_robin committee 6 committee-IsValid (omega arith)
