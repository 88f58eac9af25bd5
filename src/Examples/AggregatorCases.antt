-- ===== src/Examples/AggregatorCases.antt =====
-- The aggregators of primary/src/aggregators.rs on four authorities.
use sailfish_test.Prelude.{◌≡◌, refl, List, [], ◌∷◌, arith, length, leb, if◌then◌else◌}
use sailfish_test.Crypto.{PublicKey, default_signature}
use sailfish_test.Config.{stake, sum32, total_votes, quorum_threshold}
use sailfish_test.Config.Stakes.{weight}
use sailfish_test.Messages.{Certificate, Vote}
use sailfish_test.Aggregators.{new_votes, new_certificates}
use sailfish_test.Aggregators.VotesOnce.{Assembled, assembled, votes_once, votes_complete}
use sailfish_test.Aggregators.Certificates.{gathered, firsts, origins, gathered-firsts}
use sailfish_test.Examples.Fixtures.{committee, header_of, certificate_of}
use sailfish_test.Examples.ConfigCases.{committee-IsValid, leader_of_one}

abbrev vote_of : PublicKey → Vote
vote_of n = record { id = 5; round = 1; origin = 1; author = n; signature = default_signature }

votes_once_example : Assembled committee (header_of 1 1 5 []) 1 (
    assembled committee
      (header_of 1 1 5 [])
      new_votes
      (vote_of 1 ∷ vote_of 3 ∷ vote_of 3 ∷ vote_of 4 ∷ vote_of 2 ∷ []))
unfolding stake
votes_once_example =
    votes_once committee committee-IsValid (header_of 1 1 5 []) 1
      (vote_of 1 ∷ vote_of 3 ∷ vote_of 3 ∷ vote_of 4 ∷ vote_of 2 ∷ [])
      (
        record { rights = omega arith; in_round = refl },
        (
          record { rights = omega arith; in_round = refl },
          (
            record { rights = omega arith; in_round = refl },
            (
              record { rights = omega arith; in_round = refl },
              (record { rights = omega arith; in_round = refl }, tt),
            ),
          ),
        ),
      )

votes_complete_example :
    length
      (assembled committee (header_of 1 1 5 []) new_votes (vote_of 1 ∷ vote_of 3 ∷ vote_of 2 ∷ []))
    ≡ 1
unfolding stake quorum_threshold total_votes sum32
votes_complete_example =
    votes_complete committee committee-IsValid (header_of 1 1 5 []) 1 2
      (vote_of 1 ∷ vote_of 3 ∷ vote_of 2 ∷ [])
      (
        record { rights = omega arith; in_round = refl },
        (
          record { rights = omega arith; in_round = refl },
          (record { rights = omega arith; in_round = refl }, tt),
        ),
      )
      leader_of_one (refl, (refl, (refl, tt))) refl (omega arith)

abbrev arrivals : List Certificate
arrivals =
    certificate_of 1 1 5 []
    ∷ certificate_of 3 1 6 []
    ∷ certificate_of 1 1 7 []
    ∷ certificate_of 4 1 8 []
    ∷ certificate_of 2 1 9 []
    ∷ []

gathered-firsts_example : gathered committee new_certificates arrivals ≡ (
    if leb (quorum_threshold committee) (weight committee (origins (firsts [] arrivals)))
    then firsts [] arrivals
    else [])
gathered-firsts_example = gathered-firsts committee committee-IsValid arrivals
