-- ===== src/Examples/StepCases.antt =====
-- The main loop of consensus/src/lib.rs from its start: the leader of round 1 arrives, then two of
-- its children, the second of which commits it.
use sailfish_test.Prelude.{◌<◌, ◌≡◌, ◌⊎◌, refl, [], ◌∷◌, none, some, arith, be_bytes, le_bytes}
use sailfish_test.Crypto.{Digest}
use sailfish_test.Config.{
  committee_size, stake, sum32, total_votes, quorum_threshold, validity_threshold, sort,
  insert_sorted,
}
use sailfish_test.Config
use sailfish_test.Messages.{Certificate, certificate_digest, genesis}
use sailfish_test.Consensus.State.{
  new_state, note_commit, max_value, sweep_authors, sweep, cleanup, update,
}
use sailfish_test.Consensus.Order.{
  leader, linked, linked_loop, order_leaders, order_leaders_loop, visit_parent, visit_parents,
  order_dag_loop, insert_by_round, sort_by_round, order_dag,
}
use sailfish_test.Consensus.Order.Support.{IsSupported}
use sailfish_test.Consensus.Steps
use sailfish_test.Consensus.Steps.{
  Consensus, Stepped, spawn, commit_all, commit_leaders, commit, committed, add_certificate,
  support, try_commit_certificate, with_certificate, receive_certificate, receive_header,
  add_stake_vote, vote_for_leader, try_commit_header,
}
use sailfish_test.Consensus.Steps.Keyed.{IsKeyed}
use sailfish_test.Consensus.Steps.Runs.{Run, Run-IsKeyed}
use sailfish_test.Consensus.Steps.Supported.{IsElected, commits-IsSupported}
use sailfish_test.Examples.Fixtures.{committee, primitives, certificate_of}
use sailfish_test.Examples.ConfigCases.{committee-IsValid}

abbrev start : Consensus
start = spawn primitives committee 50

abbrev first_leader : Certificate
first_leader = certificate_of 2 1 12 []

abbrev leader_digest : Digest
leader_digest = certificate_digest primitives first_leader

abbrev child1 : Certificate
child1 = certificate_of 1 2 21 (leader_digest ∷ [])

abbrev child2 : Certificate
child2 = certificate_of 3 2 23 (leader_digest ∷ [])

abbrev two : Consensus
two = with_certificate primitives child1 (with_certificate primitives first_leader start)

abbrev reached : Stepped → Consensus → Consensus
reached none k = k
reached (some (k, _)) k0 = k

abbrev three : Consensus
three = reached (receive_certificate primitives child2 two) two

first_enters :
    receive_certificate primitives first_leader start
    ≡ some (with_certificate primitives first_leader start, [])
unfolding receive_certificate with_certificate add_certificate spawn new_state genesis
first_enters = refl

second_enters :
    receive_certificate primitives child1 (with_certificate primitives first_leader start)
    ≡ some (two, [])
unfolding receive_certificate with_certificate add_certificate spawn new_state genesis leader
    Config.leader committee_size sort insert_sorted try_commit_certificate support Steps.sum32
    validity_threshold total_votes sum32 stake certificate_digest be_bytes le_bytes
second_enters = refl

third_commits : receive_certificate primitives child2 two ≡ some (three, first_leader ∷ [])
unfolding receive_certificate with_certificate add_certificate spawn new_state genesis leader
    Config.leader committee_size sort insert_sorted try_commit_certificate support Steps.sum32
    validity_threshold total_votes sum32 stake commit_all commit_leaders commit linked linked_loop
    order_leaders order_leaders_loop visit_parent visit_parents order_dag_loop insert_by_round
    sort_by_round order_dag note_commit max_value sweep_authors sweep cleanup update
    certificate_digest be_bytes le_bytes
third_commits = refl

Run-IsKeyed_example : IsKeyed primitives three.state.dag
Run-IsKeyed_example = Run-IsKeyed primitives committee 50 three (
    Run.certificate child2 (first_leader ∷ [])
      (Run.certificate child1 [] (Run.certificate first_leader [] Run.start first_enters)
        second_enters)
      third_commits)

commits-IsSupported_example :
    ((three ≡ with_certificate primitives child2 two) × (first_leader ∷ [] ≡ []))
    ⊎ ((d : Digest) × (top : Certificate) × (two.state.last_committed_round < 1)
        × IsElected committee (with_certificate primitives child2 two).state.dag 1 (d, top)
        × IsSupported committee (with_certificate primitives child2 two).state.dag 1 d top
        × (committed
              (with_certificate primitives child2 two)
              (commit committee 50 top (with_certificate primitives child2 two).state)
            ≡ some (three, first_leader ∷ [])))
unfolding with_certificate spawn
commits-IsSupported_example =
    commits-IsSupported primitives child2 two three (first_leader ∷ []) 1 committee-IsValid
      (Run-IsKeyed primitives committee 50 two (
        Run.certificate child1 [] (Run.certificate first_leader [] Run.start first_enters)
          second_enters))
      refl (omega arith) third_commits
