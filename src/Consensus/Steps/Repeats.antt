-- ===== src/Consensus/Steps/Repeats.antt =====
-- The arm of headers of consensus/src/lib.rs, when the same header is delivered more than once.
use sailfish_test.Prelude.{
  ℕ, zero, suc, ◌*◌, ◌≤◌, ◌<◌, ◌≡◌, refl, ◌∙◌, ap, [], ◌∷◌, true, Option, none, some, arith, add32,
  sub64, contains, get, get-insert, unwrap_or, ==_refl,
}
use sailfish_test.Crypto.{Digest}
use sailfish_test.Config.{stake, quorum_threshold}
use sailfish_test.Config.Stakes.{IsValid, weight-le-stake_sum}
use sailfish_test.Config.Overlap.{quorum_eq}
use sailfish_test.Messages.{Header, Certificate}
use sailfish_test.Consensus.Order.{leader, ◌>>=◌}
use sailfish_test.Consensus.Steps.{
  Consensus, Stepped, commit, committed, add_stake_vote, vote_for_leader, try_commit_header,
  receive_header,
}

abbrev after : Stepped → Option Consensus
after none = none
after (some (k, _)) = some k

-- The header, received a number of times.
pub receive_times : ℕ → Header → Consensus → Option Consensus
receive_times zero h k = some k
receive_times (suc n) h k = receive_times n h k >>= λ k'. after (receive_header h k')

-- The header can vote: the leader of the round before is in the DAG and is not committed, and the
-- header has it as a parent.
pub record CanVote (h : Header) (d : Digest) (top : Certificate) (k : Consensus) : Type 0 where
  pub led : leader k.committee (sub64 h.round 1) k.state.dag ≡ some (some (d, top))
  pub pending : k.state.last_committed_round < sub64 h.round 1
  pub parent : contains h.parents d ≡ true

-- The same but for the stake votes.
pub record IsSame (k k' : Consensus) : Type 0 where
  pub committee : k'.committee ≡ k.committee
  pub gc_depth : k'.gc_depth ≡ k.gc_depth
  pub state : k'.state ≡ k.state

abbrev pub votes_of : Header → Consensus → ℕ
votes_of h k = unwrap_or 0 (get h.round k.stake_vote)

vote_for_leader-votes :
    (h : Header) (d : Digest) (k : Consensus)
    → contains h.parents d ≡ true
    → votes_of h (vote_for_leader h d k) ≡ add32 (votes_of h k) (stake k.committee h.author)
unfolding vote_for_leader add_stake_vote
vote_for_leader-votes h d k e = rw e (
    rw (get-insert h.round h.round (add32 (votes_of h k) (stake k.committee h.author)) k.stake_vote)
      (rw (==_refl h.round)))

vote_for_leader-IsSame :
    (h : Header) (d : Digest) (k : Consensus) → IsSame k (vote_for_leader h d k)
unfolding vote_for_leader
vote_for_leader-IsSame h d k = ground arith

-- One delivery, while the quorum is not reached and when it is.
receive_header-short :
    (h : Header) (d : Digest) (top : Certificate) (k : Consensus)
    → CanVote h d top k
    → add32 (votes_of h k) (stake k.committee h.author) < quorum_threshold k.committee
    → receive_header h k ≡ some (vote_for_leader h d k, [])
unfolding receive_header try_commit_header
receive_header-short h d top k can short =
    ground (arith, can.led, can.pending, vote_for_leader-votes h d k can.parent)

receive_header-reached :
    (h : Header) (d : Digest) (top : Certificate) (k : Consensus)
    → CanVote h d top k
    → quorum_threshold k.committee ≤ add32 (votes_of h k) (stake k.committee h.author)
    → receive_header h k
      ≡ committed (vote_for_leader h d k) (commit k.committee k.gc_depth top k.state)
unfolding receive_header try_commit_header
receive_header-reached h d top k can reached =
    ground (arith, can.led, can.pending, vote_for_leader-votes h d k can.parent)

IsSame-CanVote :
    (h : Header) (d : Digest) (top : Certificate) (k k' : Consensus)
    → IsSame k k'
    → CanVote h d top k
    → CanVote h d top k'
IsSame-CanVote h d top k k' s can = record {
  led = rw (s.committee, s.state) can.led;
  pending = rw s.state can.pending;
  parent = can.parent;
}

IsSame-trans : (k k' k'' : Consensus) → IsSame k k' → IsSame k' k'' → IsSame k k''
IsSame-trans k k' k'' s t = record {
  committee = t.committee ∙ s.committee;
  gc_depth = t.gc_depth ∙ s.gc_depth;
  state = t.state ∙ s.state;
}

receive_times-votes :
    (n : ℕ) (h : Header) (d : Digest) (top : Certificate) (k : Consensus)
    → IsValid k.committee
    → CanVote h d top k
    → votes_of h k ≡ 0
    → n * stake k.committee h.author < quorum_threshold k.committee
    → (k' : Consensus) × (receive_times n h k ≡ some k')
      × IsSame k k'
      × (votes_of h k' ≡ n * stake k.committee h.author)
unfolding receive_times
receive_times-votes zero h d top k valid can none_yet short =
    (k, refl, record { committee = refl; gc_depth = refl; state = refl }, omega (arith, none_yet))
receive_times-votes (suc n) h d top k valid can none_yet short =
    let (k1, e, same, votes) = receive_times-votes n h d top k valid can none_yet (omega arith) in
    let can1 = IsSame-CanVote h d top k k1 same can in
    let adds : add32 (votes_of h k1) (stake k1.committee h.author)
        ≡ suc n * stake k.committee h.author =
      rw (same.committee, votes) (omega (arith, quorum_eq k.committee valid, valid.bounded)) in
    let short1 : add32 (votes_of h k1) (stake k1.committee h.author)
        < quorum_threshold k1.committee =
      rw (adds, same.committee) short in
    (
      vote_for_leader h d k1,
      rw e (ap after (receive_header-short h d top k1 can1 short1)),
      IsSame-trans k k1 (vote_for_leader h d k1) same (vote_for_leader-IsSame h d k1),
      vote_for_leader-votes h d k1 can1.parent ∙ adds,
    )

-- On a valid committee, let a header have as a parent the leader of the round before, which is
-- above the last committed round, and let no stake votes be counted for the header's round. If the
-- stake of its author times `n` is short of the quorum threshold and times `n + 1` reaches it, then
-- after `n` deliveries of this one header the state is as before, and the next delivery commits for
-- the leader.
pub repeated_header-commits :
    (n : ℕ) (h : Header) (d : Digest) (top : Certificate) (k : Consensus)
    → IsValid k.committee
    → CanVote h d top k
    → votes_of h k ≡ 0
    → n * stake k.committee h.author < quorum_threshold k.committee
    → quorum_threshold k.committee ≤ suc n * stake k.committee h.author
    → (k' : Consensus) × (receive_times n h k ≡ some k')
      × (k'.state ≡ k.state)
      × (receive_header h k'
          ≡ committed (vote_for_leader h d k') (commit k.committee k.gc_depth top k.state))
repeated_header-commits n h d top k valid can none_yet short reached =
    let (k1, e, same, votes) = receive_times-votes n h d top k valid can none_yet short in
    let can1 = IsSame-CanVote h d top k k1 same can in
    let bound = quorum_eq k.committee valid in
    let adds : add32 (votes_of h k1) (stake k1.committee h.author)
        ≡ suc n * stake k.committee h.author =
      rw (same.committee, votes)
        (omega (
          arith,
          bound,
          valid.bounded,
          weight-le-stake_sum k.committee (h.author ∷ []) valid (refl, tt),
        )) in
    let reached1 : quorum_threshold k1.committee
        ≤ add32 (votes_of h k1) (stake k1.committee h.author) =
      rw (adds, same.committee) reached in
    (
      k1,
      e,
      same.state,
      receive_header-reached h d top k1 can1 reached1
          ∙ rw (same.committee, same.gc_depth, same.state) refl,
    )
