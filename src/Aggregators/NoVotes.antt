-- ===== src/Aggregators/NoVotes.antt =====
-- The no-vote messages of primary/src/aggregators.rs.
use sailfish_test.Prelude.{
  ◌≤◌, ◌<◌, ◌≡◌, refl, inl, inr, [], ◌∷◌, ◌++◌, true, false, Option, none, some, arith, leb,
  contains, set_insert_fresh, Bool-cases, subst, sym, leb→le,
}
use sailfish_test.Config.{Committee, stake, quorum_threshold}
use sailfish_test.Config.Stakes.{IsValid, weight}
use sailfish_test.Messages.{DagResult, ok, err, authority_reuse, NoVoteMsg, NoVoteCert}
use sailfish_test.Messages.Quorum.{check_quorum_iff}
use sailfish_test.Messages.Checks.{verify_no_vote_cert}
use sailfish_test.Aggregators.{NoVoteAggregator, append_no_vote, count_no_vote, certify_no_votes}
use sailfish_test.Aggregators.Counted.{IsCounted, IsCounted-snoc, IsCounted-IsQuorum}

-- What an `append` of a no-vote message does: it refuses an author that it has seen; else it counts the
-- message, and gives a certificate that verifies when the authors hold a quorum, and none before.
pub data NoVoteAppended (c : Committee) (m : NoVoteMsg) (a : NoVoteAggregator)
    (r : DagResult (Option NoVoteCert)) (a' : NoVoteAggregator) : Type 0 where
  refused :
      contains a.used m.author ≡ true
      → r ≡ err (authority_reuse m.author)
      → a' ≡ a
      → NoVoteAppended c m a r a'
  waits :
      contains a.used m.author ≡ false
      → r ≡ ok none
      → a'.used ≡ a.used ++ m.author ∷ []
      → weight c a'.used < quorum_threshold c
      → NoVoteAppended c m a r a'
  certifies :
      (cert : NoVoteCert)
      → contains a.used m.author ≡ false
      → r ≡ ok (some cert)
      → a'.used ≡ a.used ++ m.author ∷ []
      → quorum_threshold c ≤ weight c a'.used
      → cert.round ≡ m.round
      → cert.no_votes ≡ a.no_votes ++ (m.author, m.signature) ∷ []
      → verify_no_vote_cert c cert ≡ ok tt
      → NoVoteAppended c m a r a'

abbrev pub IsNoVoteCount : Committee → NoVoteAggregator → Type 0
IsNoVoteCount c a = IsCounted c a.weight a.no_votes a.used

append_no_vote_seen :
    (c : Committee) (m : NoVoteMsg) (a : NoVoteAggregator)
    → contains a.used m.author ≡ true
    → append_no_vote m c a ≡ (err (authority_reuse m.author), a)
unfolding append_no_vote
append_no_vote_seen c m a old = rw old

append_no_vote_fresh :
    (c : Committee) (m : NoVoteMsg) (a : NoVoteAggregator)
    → contains a.used m.author ≡ false
    → append_no_vote m c a ≡ (certify_no_votes c m (count_no_vote m c a), count_no_vote m c a)
unfolding append_no_vote
append_no_vote_fresh c m a fresh = rw fresh

count_no_vote-used :
    (c : Committee) (m : NoVoteMsg) (a : NoVoteAggregator)
    → contains a.used m.author ≡ false
    → (count_no_vote m c a).used ≡ a.used ++ m.author ∷ []
unfolding count_no_vote
count_no_vote-used c m a fresh = set_insert_fresh m.author a.used fresh

certify_no_votes-Appended :
    (c : Committee) (m : NoVoteMsg) (a : NoVoteAggregator)
    → IsValid c
    → contains a.used m.author ≡ false
    → IsNoVoteCount c (count_no_vote m c a)
    → NoVoteAppended c m a (certify_no_votes c m (count_no_vote m c a)) (count_no_vote m c a)
unfolding certify_no_votes
certify_no_votes-Appended c m a valid fresh i =
    elim (Bool-cases (leb (quorum_threshold c) (count_no_vote m c a).weight)) [
      | inr short ↦
          waits fresh (rw short) (count_no_vote-used c m a fresh) (ground (arith, i.counted))
      | inl reached ↦
          certifies (record { round = m.round; no_votes = (count_no_vote m c a).no_votes }) fresh
            (rw reached) (count_no_vote-used c m a fresh) (ground (arith, i.counted)) refl
            (unfold count_no_vote in refl)
            (unfold verify_no_vote_cert in
              (check_quorum_iff c (count_no_vote m c a).no_votes valid).1
                (IsCounted-IsQuorum c _ _ _ i (leb→le _ _ reached)))
    ]

-- On a valid committee, an aggregator whose set of authors and weight are those of the no-vote
-- messages that it holds stays so after a message of an authority with voting rights. An author
-- that was seen before is refused and changes nothing. Any other message is counted; when the
-- authors so far hold a quorum, a certificate of all their messages comes out, which passes
-- verification, and none comes out before.
pub append_no_vote-Appended :
    (c : Committee) (m : NoVoteMsg) (a : NoVoteAggregator)
    → IsValid c
    → 0 < stake c m.author
    → IsNoVoteCount c a
    → IsNoVoteCount c (append_no_vote m c a).1
      × NoVoteAppended c m a (append_no_vote m c a).0 (append_no_vote m c a).1
append_no_vote-Appended c m a valid rights i = elim (Bool-cases (contains a.used m.author)) [
  | inl old ↦
      subst (λ x. IsNoVoteCount c x.1 × NoVoteAppended c m a x.0 x.1)
        (sym (append_no_vote_seen c m a old)) (i, refused old refl refl)
  | inr fresh ↦
      let i' : IsNoVoteCount c (count_no_vote m c a) =
        unfold count_no_vote in
        IsCounted-snoc c valid a.weight a.no_votes a.used m.author m.signature i rights fresh in
      subst (λ x. IsNoVoteCount c x.1 × NoVoteAppended c m a x.0 x.1)
        (sym (append_no_vote_fresh c m a fresh))
        (i', certify_no_votes-Appended c m a valid fresh i')
]
