-- ===== src/Examples/ProposerCases.antt =====
-- A proposer of primary/src/proposer.rs with four authorities.
use sailfish_test.Prelude.{
  suc, zero, false, Option, map, inr, is_empty, be_bytes, le_bytes, ℕ, ◌+◌, ◌≡◌, refl, arith, List,
  [], ◌∷◌, true, false, ◌||◌, some, unwrap_or, contains, keys, All, add64,
}
use sailfish_test.Config.{leader, committee_size, sort, insert_sorted, stake, worker}
use sailfish_test.Messages.{
  Certificate, new_timeout_cert, malformed_header, genesis, certificate_digest,
}
use sailfish_test.Core.{Core, Codec, failed, done}
use sailfish_test.Core.{spawn as spawn_core}
use sailfish_test.Core.Sync.{get_parents}
use sailfish_test.Proposer.Resolve.{IsKnown}
use sailfish_test.Core.Handlers.{validate_parents}
use sailfish_test.Proposer.{
  Proposer, Event, digest, parents, timer, timeout_cert, spawn, run, turn, propose, time_out,
  is_ready, advance_round, make_header, make_timeout_msg, receive, receive_parents, receive_digest,
  receive_timeout_cert, update_leader,
}
use sailfish_test.Proposer.Rule.{proposed}
use sailfish_test.Proposer.Timeouts.{is_spaced, timeouts_spaced}
use sailfish_test.Proposer.Payload.{is_proposed, is_received, payload_complete}
use sailfish_test.Proposer.Certs.{IsSound, run-IsSound}
use sailfish_test.Proposer.Parents.{IsCurrent, header_after, timeout-refused}
use sailfish_test.Proposer.Again.{headers_in, proposes_again}
use sailfish_test.Examples.Fixtures.{committee, primitives, signs, certificate_of}
use sailfish_test.Examples.ConfigCases.{committee-IsValid}
use sailfish_test.Examples.CoreCases.{node, codec, empty_store}

-- A header of 32 bytes of payload, that is one digest.
abbrev started : Proposer
started = spawn 1 committee 32 100 0

abbrev events : List (ℕ × Event)
events = (0, digest 77 0) ∷ (5, parents (certificate_of 2 1 12 [] ∷ []) 1) ∷ (150, timer) ∷ []

abbrev final : Proposer
final = unwrap_or started (run primitives events started)

ran : run primitives events started ≡ some final
unfolding spawn run turn propose time_out is_ready advance_round make_header make_timeout_msg
    receive receive_parents receive_digest update_leader leader sort insert_sorted committee_size
    genesis
ran = refl

payload_complete_example :
    (is_proposed 77 final.sent || contains (keys final.digests) 77) ≡ is_received 77 events
payload_complete_example = payload_complete primitives 1 committee 32 100 0 events final 77 ran

timeouts_spaced_example : is_spaced false final.sent ≡ true
timeouts_spaced_example = timeouts_spaced primitives 1 committee 32 100 0 events final ran

run-IsSound_example : All (IsSound primitives 1 committee) final.sent
unfolding stake worker
run-IsSound_example =
    run-IsSound primitives 1 committee 32 100 0 events final (signs 1) (omega arith)
      (
        (record { transactions = 201; worker_to_worker = 301; primary_to_worker = 401 }, refl),
        (tt, (tt, tt)),
      )
      ran

-- In round 1 with the certificates of three authorities, the leader among them.
abbrev round_one : List Certificate
round_one = certificate_of 1 1 11 [] ∷ certificate_of 2 1 12 [] ∷ certificate_of 3 1 13 [] ∷ []

abbrev fed : Proposer
fed = record started { round = 1; last_parents = round_one; payload_size = 32 }

-- A core that has the three certificates, by their digests.
abbrev bytes_of : Certificate → List ℕ
bytes_of x = x.header.author ∷ []

abbrev reads : List ℕ → Option Certificate
reads (suc zero ∷ _) = some (certificate_of 1 1 11 [])
reads (suc (suc zero) ∷ _) = some (certificate_of 2 1 12 [])
reads _ = some (certificate_of 3 1 13 [])

abbrev parents_codec : Codec
parents_codec = record codec { deserialize_certificate = reads }

abbrev stocked_node : Core
stocked_node = record node {
  store = record empty_store {
    entries = map (λ x. (certificate_digest primitives x, bytes_of x)) round_one;
  };
}

round_one-IsKnown : All (IsKnown primitives parents_codec stocked_node) round_one
unfolding genesis certificate_digest be_bytes le_bytes spawn_core
round_one-IsKnown = (
  inr (refl, (1 ∷ []), refl, refl),
  (inr (refl, (2 ∷ []), refl, refl), (inr (refl, (3 ∷ []), refl, refl), tt)),
)

timeout-refused_example :
    ((receive_timeout_cert (new_timeout_cert 5) 5 fed).last_parents ≡ round_one)
    × ((receive_timeout_cert (new_timeout_cert 5) 5 fed).round ≡ 5)
    × (parents : List Certificate) × (get_parents primitives parents_codec
          (header_after primitives (new_timeout_cert 5) 5 3 fed)
          stocked_node
        ≡ (done parents, stocked_node))
    × (is_empty parents ≡ false)
    × (validate_parents committee
          (header_after primitives (new_timeout_cert 5) 5 3 fed)
          parents
          stocked_node
        ≡ (
          failed (malformed_header (header_after primitives (new_timeout_cert 5) 5 3 fed).id),
          stocked_node,
        ))
unfolding IsCurrent spawn spawn_core
timeout-refused_example =
    timeout-refused primitives parents_codec (new_timeout_cert 5) 5 3 fed stocked_node
      (refl, (refl, (refl, tt))) refl (omega arith) (λ e. omega (arith, e)) (omega arith)
      (omega arith) refl round_one-IsKnown

proposes_again_example :
    (u v : Proposer) × (run primitives
        ((10, timeout_cert (new_timeout_cert 1) 1)
          ∷ (20, parents (certificate_of 4 1 14 [] ∷ []) 1)
          ∷ [])
        (proposed primitives 5 3 fed)
      ≡ some u)
    × (propose primitives 200 u ≡ some v)
    × (headers_in (add64 1 1) v.sent ≡ headers_in (add64 1 1) fed.sent + 2)
unfolding spawn leader sort insert_sorted committee_size
proposes_again_example =
    proposes_again primitives 10 20 5 200 3 (new_timeout_cert 1) (certificate_of 4 1 14 []) [] fed
      committee-IsValid (omega arith) (omega arith) refl refl (omega arith) refl (omega arith)
      (omega arith) (omega arith)
