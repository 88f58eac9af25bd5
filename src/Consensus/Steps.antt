-- ===== src/Consensus/Steps.antt =====
-- The main loop of consensus/src/lib.rs: what a header and what a certificate does to the state.
-- The sequence that an arm returns is sent, in order, to the primary and to the application.
pub mod Commits
pub mod Keyed
pub mod Runs
pub mod Supported
pub mod Repeats
use sailfish_test.Prelude.{
  ℕ, List, [], ◌∷◌, ◌++◌, map, reverse, true, false, Option, none, some, add32, sub64, leb, ltb,
  if◌then◌else◌, retain, contains, get, insert, values, unwrap_or,
}
use sailfish_test.Crypto.{Digest, PublicKey, Primitives}
use sailfish_test.Config.{Committee, Stake, stake, quorum_threshold, validity_threshold}
use sailfish_test.Messages.{
  Round, Header, Certificate, round_of, origin, certificate_digest, genesis,
}
use sailfish_test.Consensus.State.{Authors, Dag, State, new_state, update}
use sailfish_test.Consensus.Order.{◌>>=◌, leader, order_leaders, order_dag}

pub record Consensus : Type 0 where
  pub committee : Committee
  pub gc_depth : Round
  pub stake_vote : List (Round × Stake)
  pub state : State

-- `Consensus::spawn` and the start of `run`.
unfoldable pub spawn : Primitives → Committee → Round → Consensus
spawn p c gc_depth = record {
  committee = c;
  gc_depth = gc_depth;
  stake_vote = [];
  state = new_state p (genesis c);
}

-- The inner loop: each certificate of a sub-DAG updates the state and joins the sequence.
unfoldable pub commit_all :
    Round → List Certificate → State × List Certificate → State × List Certificate
commit_all gc_depth [] r = r
commit_all gc_depth (x ∷ xs) (s, sequence) =
    commit_all gc_depth xs (update gc_depth x s, sequence ++ x ∷ [])

-- The outer loop, over the leaders from the oldest.
unfoldable pub commit_leaders :
    Round → List Certificate → State × List Certificate → Option (State × List Certificate)
commit_leaders gc_depth [] r = some r
commit_leaders gc_depth (l ∷ ls) r = do
  xs ← order_dag gc_depth l r.0
  commit_leaders gc_depth ls (commit_all gc_depth xs r)

unfoldable pub commit : Committee → Round → Certificate → State → Option (State × List Certificate)
commit c gc_depth top s = do
  leaders ← order_leaders c top s
  commit_leaders gc_depth (reverse leaders) (s, [])

abbrev pub Stepped : Type 0
Stepped = Option (Consensus × List Certificate)

abbrev pub committed : Consensus → Option (State × List Certificate) → Stepped
committed k none = none
committed k (some (s, sequence)) = some (record k { state = s }, sequence)

-- `*stake_vote.entry(round).or_insert(0) += stake`.
unfoldable pub add_stake_vote : Round → Stake → List (Round × Stake) → List (Round × Stake)
add_stake_vote r x votes = insert r (add32 (unwrap_or 0 (get r votes)) x) votes

unfoldable pub vote_for_leader : Header → Digest → Consensus → Consensus
vote_for_leader h leader_digest k =
    if contains h.parents leader_digest
    then record k { stake_vote = add_stake_vote h.round (stake k.committee h.author) k.stake_vote }
    else k

-- With a leader: count the stake, and commit on a quorum.
unfoldable pub try_commit_header : Header → Consensus → Option (Digest × Certificate) → Stepped
try_commit_header h k none = some (k, [])
try_commit_header h k (some (leader_digest, top)) =
    let k' = vote_for_leader h leader_digest k in
    if leb (quorum_threshold k.committee) (unwrap_or 0 (get h.round k'.stake_vote))
    then committed k' (commit k.committee k.gc_depth top k.state)
    else some (k', [])

-- The arm of `rx_primary_header`.
unfoldable pub receive_header : Header → Consensus → Stepped
receive_header h k =
    if leb (sub64 h.round 1) k.state.last_committed_round
    then some (k, [])
    else leader k.committee (sub64 h.round 1) k.state.dag >>= try_commit_header h k

-- `dag.entry(round).or_insert_with(HashMap::new).insert(origin, (digest, certificate))`.
unfoldable pub add_certificate : Primitives → Certificate → Dag → Dag
add_certificate p x dag =
    insert (round_of x)
      (insert (origin x) (certificate_digest p x, x) (unwrap_or [] (get (round_of x) dag))) dag

-- The stake of the certificates of a round that have the leader as a parent.
unfoldable pub sum32 : List ℕ → ℕ
sum32 [] = 0
sum32 (x ∷ xs) = add32 x (sum32 xs)

unfoldable pub support : Committee → Digest → Authors → Stake
unfolding sum32
support c leader_digest authors = sum32 (
    map (λ e. stake c (origin e.1))
      (retain (λ e. contains e.1.header.parents leader_digest) (values authors)))

-- With a leader: commit if its children hold a validity threshold.
unfoldable pub try_commit_certificate :
    Certificate → Consensus → Option (Digest × Certificate) → Stepped
try_commit_certificate x k none = some (k, [])
try_commit_certificate x k (some (leader_digest, top)) = get (round_of x) k.state.dag >>= λ authors.
    if ltb (support k.committee leader_digest authors) (validity_threshold k.committee)
    then some (k, [])
    else committed k (commit k.committee k.gc_depth top k.state)

unfoldable pub with_certificate : Primitives → Certificate → Consensus → Consensus
with_certificate p x k = record k {
  state = record (k.state) { dag = add_certificate p x k.state.dag };
}

-- The arm of `rx_primary`.
unfoldable pub receive_certificate : Primitives → Certificate → Consensus → Stepped
receive_certificate p x k0 =
    let k = with_certificate p x k0 in
    if leb (sub64 (round_of x) 1) k.state.last_committed_round
    then some (k, [])
    else leader k.committee (sub64 (round_of x) 1) k.state.dag >>= try_commit_certificate x k
