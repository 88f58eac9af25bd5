-- ===== src/Examples/ConsensusCases.antt =====
-- The consensus of consensus/src/lib.rs on a small DAG of four authorities. The leader of round 1 is
-- authority 2, with digest 12; every certificate of round 2 has it as a parent.
use mathlib.Core.List.{Memᴰ}
use sailfish_test.Prelude.{
  ◌+◌, ◌*◌, ◌≤◌, ◌≡◌, ◌↔◌, refl, List, [], ◌∷◌, true, some, arith, add64, leb, All, get, values, ap,
  sym, subst,
}
use sailfish_test.Crypto.{Digest, PublicKey}
use sailfish_test.Config.{
  committee_size, stake, sum32, total_votes, quorum_threshold, validity_threshold, sort,
  insert_sorted,
}
use sailfish_test.Config
use sailfish_test.Messages.{Round, Header, Certificate, round_of, same_certificate}
use sailfish_test.Consensus.State.{Authors, Dag, State, update}
use sailfish_test.Consensus.State.Cleanup.{IsUpdated, update-IsUpdated}
use sailfish_test.Consensus.Order.{leader, linked, linked_loop, order_dag}
use sailfish_test.Consensus.Order.Links.{Descent, gap, linked_iff}
use sailfish_test.Consensus.Order.Support.{HasQuorum, IsClosed, supported-linked}
use sailfish_test.Consensus.Order.SubDag.{RoundsFrom, IsSequenced, order_dag_lem}
use sailfish_test.Consensus.Steps.{Consensus, committed, commit, vote_for_leader, receive_header}
use sailfish_test.Consensus.Steps.Repeats.{receive_times, repeated_header-commits}
use sailfish_test.Examples.Fixtures.{committee, header_of, certificate_of}
use sailfish_test.Examples.ConfigCases.{committee-IsValid}

-- The certificate of an author in a round has the digest ten times the round plus the author.
abbrev row_of : Round → List Digest → List PublicKey → Authors
row_of r parents [] = []
row_of r parents (n ∷ ns) =
    (n, (10 * r + n, certificate_of n r (10 * r + n) parents)) ∷ row_of r parents ns

abbrev round1 : Authors
round1 = row_of 1 [] (1 ∷ 2 ∷ 3 ∷ 4 ∷ [])

abbrev round2 : Authors
round2 = row_of 2 (11 ∷ 12 ∷ 13 ∷ []) (1 ∷ 3 ∷ 4 ∷ [])

abbrev round3 : Authors
round3 = row_of 3 (21 ∷ 23 ∷ 24 ∷ []) (2 ∷ 3 ∷ 4 ∷ [])

abbrev pub dag : Dag
dag = (1, round1) ∷ (2, round2) ∷ (3, round3) ∷ []

abbrev leader1 : Certificate
leader1 = certificate_of 2 1 12 []

abbrev leader3 : Certificate
leader3 = certificate_of 4 3 34 (21 ∷ 23 ∷ 24 ∷ [])

abbrev state : State
state = record { last_committed_round = 0; last_committed = (1, 0) ∷ (2, 0) ∷ []; dag = dag }

linked_iff_example : (true ≡ true) ↔ (
    (y : Certificate) × Descent dag leader3 (gap leader3 leader1) y
    × (same_certificate y leader1 ≡ true))
unfolding linked linked_loop
linked_iff_example = linked_iff dag leader3 leader1 true refl

update-IsUpdated_example : IsUpdated 1 leader3 state (update 1 leader3 state)
update-IsUpdated_example = update-IsUpdated 1 leader3 state

order_dag_lem_example :
    (xs : List Certificate) × (order_dag 50 leader3 state ≡ some xs)
    × RoundsFrom 0 xs
    × All (IsSequenced state leader3) xs
    × All (λ x. leb 0 (add64 (round_of x) 50) ≡ true) xs
order_dag_lem_example = order_dag_lem 50 leader3 state

-- Every certificate of round 3 has the three of round 2 as parents.
round3-HasQuorum :
    (e : Digest × Certificate)
    → e.1.header.parents ≡ 21 ∷ 23 ∷ 24 ∷ []
    → HasQuorum committee dag 3 e.1
unfolding quorum_threshold total_votes sum32 stake
round3-HasQuorum e h = record {
  authors = round2;
  below = 2;
  next = refl;
  present = refl;
  distinct = (refl, (refl, (refl, tt)));
  enough = rw h (omega arith);
}

row_of-parents :
    (r : Round) (parents : List Digest) (ns : List PublicKey) (e : Digest × Certificate)
    → Memᴰ e (values (row_of r parents ns))
    → e.1.header.parents ≡ parents
row_of-parents r parents [] e m = elim m [ ]
row_of-parents r parents (n ∷ ns) e (Memᴰ.head h) = ap (λ t. t.1.header.parents) h
row_of-parents r parents (n ∷ ns) e (Memᴰ.tail m) = row_of-parents r parents ns e m

only_round3 :
    (r : Round) (authors : Authors)
    → 3 ≤ r
    → get r dag ≡ some authors
    → (3 ≡ r) × (round3 ≡ authors)
only_round3 r authors h g = ground arith

dag-IsClosed : IsClosed committee dag 3
dag-IsClosed = record {
  parents = λ r authors e h g m.
      let (at, same) = only_round3 r authors h g in
      subst (λ t. HasQuorum committee dag t e.1) at
        (round3-HasQuorum e (
          row_of-parents 3 (21 ∷ 23 ∷ 24 ∷ []) (2 ∷ 3 ∷ 4 ∷ []) e
            (subst (λ t. Memᴰ e (values t)) (sym same) m)));
}

supported-linked_example : linked leader3 leader1 dag ≡ some true
unfolding validity_threshold total_votes sum32 stake
supported-linked_example =
    supported-linked committee dag 1 12 leader1 leader3 committee-IsValid
      (record {
        leaders = round1;
        authors = round2;
        leaders_present = refl;
        in_leaders = Memᴰ.tail (Memᴰ.head refl);
        present = refl;
        enough = omega arith;
      })
      refl dag-IsClosed (round3-HasQuorum (34, leader3) refl) (omega arith)

-- The leader of round 1 is authority 2.
abbrev waiting_consensus : Consensus
waiting_consensus = record { committee = committee; gc_depth = 50; stake_vote = []; state = state }

abbrev own_vote : Header
own_vote = header_of 3 2 77 (12 ∷ [])

repeated_header-commits_example :
    (k' : Consensus) × (receive_times 2 own_vote waiting_consensus ≡ some k')
    × (k'.state ≡ state)
    × (receive_header own_vote k'
        ≡ committed (vote_for_leader own_vote 12 k') (commit committee 50 leader1 state))
unfolding leader Config.leader committee_size sort insert_sorted quorum_threshold total_votes sum32
    stake
repeated_header-commits_example =
    repeated_header-commits 2 own_vote 12 leader1 waiting_consensus committee-IsValid
      (record { led = refl; pending = omega arith; parent = refl }) refl (omega arith) (omega arith)
