-- ===== src/Examples/LifeCases.antt =====
-- A node of primary/src/core.rs that meets the header of authority 2 in round 1.
use sailfish_test.Prelude.{◌≤◌, ◌≡◌, refl, List, [], map, arith, be_bytes, le_bytes}
use sailfish_test.Crypto.{verify, Digest}
use sailfish_test.Config.{
  committee_size, stake, sum32, total_votes, quorum_threshold, sort, insert_sorted, leader, worker,
  primary,
}
use sailfish_test.Messages.{
  Header, new_header, new_vote, header_digest, payload_bytes, parents_bytes, certificate_digest,
  vote_digest, genesis, new_timeout_cert, new_no_vote_cert,
}
use sailfish_test.Messages.Checks.{verify_header, check_workers}
use sailfish_test.Core.{Core, spawn, try_, expect, expect_ok}
use sailfish_test.Core
use sailfish_test.Core.Sync.{
  get_parents, lookup_parents, lookup_parent, missing_payload, missing_batches,
}
use sailfish_test.Core.Handlers.{
  store_entry, check_parents, check_leaderless, validate_parents, note_processing, note_voted,
  cast_vote, vote_once, accept_header, process_header_with, process_header, send_round,
}
use sailfish_test.Core.Sanitize.{sanitize_header}
use sailfish_test.Core.Loop.{
  Input, Step, running, killed, stopped, from_primaries, receive, dispatch, clean_up, settle, step,
}
use sailfish_test.Core.Voting.{times}
use sailfish_test.Tasks.{collect}
use sailfish_test.Tasks.Node.{starts, handles, collects, node_votes_once}
use sailfish_test.Examples.Fixtures.{committee, primitives}
use sailfish_test.Examples.CoreCases.{codec, empty_store}
use sailfish_test.Examples.TaskCases.{collector, spawned, committed}

abbrev node : Core
node = spawn 1 committee empty_store 50

abbrev genesis_digests : List Digest
genesis_digests = map (λ x. certificate_digest primitives x) (genesis committee)

abbrev first_header : Header
first_header =
    new_header primitives 2 1 [] genesis_digests (new_timeout_cert 0) (new_no_vote_cert 0)

abbrev after : Step → Core → Core
after (running k) k0 = k
after killed k0 = k0
after stopped k0 = k0

abbrev input : Header → Input
input h = from_primaries (Core.PrimaryMessage.header h)

abbrev one : Core
one = after (step primitives codec (input first_header) node) node

voted_once :
    (step primitives codec (input first_header) node ≡ running one)
    × (one.gc_round ≤ 1)
    × (times 1 2 one.sent ≡ 1)
unfolding step dispatch receive settle clean_up spawn sanitize_header verify_header verify
    check_workers worker stake header_digest payload_bytes parents_bytes new_header new_vote
    vote_digest be_bytes le_bytes certificate_digest genesis get_parents lookup_parents
    lookup_parent missing_payload missing_batches store_entry check_parents check_leaderless
    validate_parents note_processing note_voted cast_vote vote_once accept_header
    process_header_with process_header send_round try_ expect expect_ok committee_size sum32
    total_votes quorum_threshold sort insert_sorted leader primary
voted_once = (refl, omega arith, refl)

-- The consensus then commits, and the garbage collector sets the round.
abbrev later : Core
later = record one { consensus_round = (collect committed collector).consensus_round }

node_votes_once_example : times 1 2 later.sent ≤ 1
unfolding spawn
node_votes_once_example =
    node_votes_once primitives codec 1 committee empty_store 50 collector
      (collect committed collector) later 1 2 spawned
      (collects committed (handles (input first_header) starts voted_once.0)) voted_once.1
