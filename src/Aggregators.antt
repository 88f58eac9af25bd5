-- ===== src/Aggregators.antt =====
-- primary/src/aggregators.rs. `append` returns its result and the aggregator that it leaves behind.
pub mod Counted
pub mod Votes
pub mod VotesOnce
pub mod Certificates
pub mod Timeouts
pub mod NoVotes
use sailfish_test.Prelude.{
  ℕ, List, [], ◌∷◌, ◌++◌, Bool, true, false, not, Option, none, some, add32, if◌then◌else◌, leb,
  contains, set_insert,
}
use sailfish_test.Crypto.{PublicKey}
use sailfish_test.Config.{Committee, Stake, stake, quorum_threshold, leader}
use sailfish_test.Messages.{
  DagResult, ok, err, authority_reuse, Signed, Header, Vote, Timeout, NoVoteMsg, TimeoutCert,
  NoVoteCert, Certificate, origin,
}

pub record VotesAggregator : Type 0 where
  pub weight : Stake
  pub votes : Signed
  pub used : List PublicKey

pub record CertificatesAggregator : Type 0 where
  pub weight : Stake
  pub certificates : List Certificate
  pub used : List PublicKey

pub record TimeoutAggregator : Type 0 where
  pub weight : Stake
  pub timeouts : Signed
  pub used : List PublicKey

pub record NoVoteAggregator : Type 0 where
  pub weight : Stake
  pub no_votes : Signed
  pub used : List PublicKey

abbrev pub new_votes : VotesAggregator
new_votes = record { weight = 0; votes = []; used = [] }

abbrev pub new_certificates : CertificatesAggregator
new_certificates = record { weight = 0; certificates = []; used = [] }

abbrev pub new_timeouts : TimeoutAggregator
new_timeouts = record { weight = 0; timeouts = []; used = [] }

abbrev pub new_no_votes : NoVoteAggregator
new_no_votes = record { weight = 0; no_votes = []; used = [] }

-- Once the vote is counted: nothing without a vote of the leader; a certificate when the weight
-- reaches a quorum, which resets it.
pub settle_votes :
    Committee
    → Header
    → PublicKey
    → VotesAggregator
    → DagResult (Option Certificate) × VotesAggregator
settle_votes c header lead a =
    if not (contains a.used lead)
    then (ok none, a)
    else if leb (quorum_threshold c) a.weight
    then (ok (some (record { header = header; votes = a.votes })), record a { weight = 0 })
    else (ok none, a)

pub count_vote : Committee → Vote → VotesAggregator → VotesAggregator
count_vote c vote a = record {
  weight = add32 a.weight (stake c vote.author);
  votes = a.votes ++ (vote.author, vote.signature) ∷ [];
  used = set_insert vote.author a.used;
}

-- `none` is the panic of `leader` on an empty committee.
unfoldable pub append_vote :
    Vote
    → Committee
    → Header
    → VotesAggregator
    → Option (DagResult (Option Certificate) × VotesAggregator)
unfolding settle_votes count_vote
append_vote vote c header a =
    if contains a.used vote.author
    then some (err (authority_reuse vote.author), a)
    else elim (leader c vote.round) [
      | none ↦ none
      | some lead ↦ some (settle_votes c header lead (count_vote c vote a))
    ]

pub count_certificate : Certificate → Committee → CertificatesAggregator → CertificatesAggregator
count_certificate cert c a = record {
  weight = add32 a.weight (stake c (origin cert));
  certificates = a.certificates ++ cert ∷ [];
  used = set_insert (origin cert) a.used;
}

-- The weight is not reset: once there is a quorum, each further certificate comes out at once.
unfoldable pub append_certificate :
    Certificate
    → Committee
    → CertificatesAggregator
    → Option (List Certificate) × CertificatesAggregator
unfolding count_certificate
append_certificate cert c a =
    if contains a.used (origin cert)
    then (none, a)
    else let a' = count_certificate cert c a in
      if leb (quorum_threshold c) a'.weight
      then (some a'.certificates, record a' { certificates = [] })
      else (none, a')

pub count_timeout : Timeout → Committee → TimeoutAggregator → TimeoutAggregator
count_timeout t c a = record {
  weight = add32 a.weight (stake c t.author);
  timeouts = a.timeouts ++ (t.author, t.signature) ∷ [];
  used = set_insert t.author a.used;
}

-- The weight is not reset, so every timeout after the quorum gives a certificate again.
pub certify_timeouts : Committee → Timeout → TimeoutAggregator → DagResult (Option TimeoutCert)
certify_timeouts c t a =
    if leb (quorum_threshold c) a.weight
    then ok (some (record { round = t.round; timeouts = a.timeouts }))
    else ok none

unfoldable pub append_timeout :
    Timeout → Committee → TimeoutAggregator → DagResult (Option TimeoutCert) × TimeoutAggregator
unfolding count_timeout certify_timeouts
append_timeout t c a =
    if contains a.used t.author
    then (err (authority_reuse t.author), a)
    else (certify_timeouts c t (count_timeout t c a), count_timeout t c a)

pub count_no_vote : NoVoteMsg → Committee → NoVoteAggregator → NoVoteAggregator
count_no_vote m c a = record {
  weight = add32 a.weight (stake c m.author);
  no_votes = a.no_votes ++ (m.author, m.signature) ∷ [];
  used = set_insert m.author a.used;
}

pub certify_no_votes : Committee → NoVoteMsg → NoVoteAggregator → DagResult (Option NoVoteCert)
certify_no_votes c m a =
    if leb (quorum_threshold c) a.weight
    then ok (some (record { round = m.round; no_votes = a.no_votes }))
    else ok none

unfoldable pub append_no_vote :
    NoVoteMsg → Committee → NoVoteAggregator → DagResult (Option NoVoteCert) × NoVoteAggregator
unfolding count_no_vote certify_no_votes
append_no_vote m c a =
    if contains a.used m.author
    then (err (authority_reuse m.author), a)
    else (certify_no_votes c m (count_no_vote m c a), count_no_vote m c a)
