-- ===== src/Aggregators/Votes.antt =====
-- The votes of primary/src/aggregators.rs: what one `append` does, before and after a certificate
-- has come out.
use sailfish_test.Prelude.{
  ◌+◌, ◌≤◌, ◌<◌, ◌≡◌, ◌⊎◌, inl, inr, List, [], ◌∷◌, ◌++◌, true, false, Option, none, some, arith,
  leb, contains, set_insert_fresh, Distinct, Distinct-snoc, Bool-cases, Option-cases,
}
use sailfish_test.Crypto.{PublicKey}
use sailfish_test.Config.{Committee, stake, quorum_threshold, leader}
use sailfish_test.Config.Stakes.{IsValid, weight, weight-le-stake_sum}
use sailfish_test.Config.Overlap.{quorum_eq}
use sailfish_test.Messages.{DagResult, ok, err, authority_reuse, Header, Vote, Certificate}
use sailfish_test.Aggregators.{VotesAggregator, append_vote, settle_votes, count_vote}
use sailfish_test.Aggregators.Counted.{IsCounted, IsCounted-snoc, weight-snoc}

-- Nothing has come out, and the weight is the stake of the voters.
abbrev pub IsPending : Committee → VotesAggregator → Type 0
IsPending c a = IsCounted c a.weight a.votes a.used

-- A certificate has come out: the voters hold a quorum more than the weight.
pub record IsSettled (c : Committee) (a : VotesAggregator) : Type 0 where
  pub distinct : Distinct a.used
  pub spent : quorum_threshold c + a.weight ≤ weight c a.used

-- The certificate in a result of `append`.
abbrev pub emitted : DagResult (Option Certificate) → List Certificate
emitted (err e) = []
emitted (ok none) = []
emitted (ok (some cert)) = cert ∷ []

-- What an `append` may leave: the panic, a duplicate, or a counted vote that is settled.
pub data Appended (v : Vote) (c : Committee) (h : Header) (a : VotesAggregator) : Type 0 where
  panics : leader c v.round ≡ none → append_vote v c h a ≡ none → Appended v c h a
  repeated :
      contains a.used v.author ≡ true
      → append_vote v c h a ≡ some (err (authority_reuse v.author), a)
      → Appended v c h a
  counts :
      (lead : PublicKey)
      → contains a.used v.author ≡ false
      → leader c v.round ≡ some lead
      → append_vote v c h a ≡ some (settle_votes c h lead (count_vote c v a))
      → Appended v c h a

pub append_vote-cases :
    (v : Vote) (c : Committee) (h : Header) (a : VotesAggregator) → Appended v c h a
unfolding append_vote
append_vote-cases v c h a = elim (Bool-cases (contains a.used v.author)) [
  | inl old ↦ repeated old (ground arith)
  | inr fresh ↦ elim (Option-cases (leader c v.round)) [
    | inl empty ↦ panics empty (ground arith)
    | inr (lead, e) ↦ counts lead fresh e (ground arith)
  ]
]

pub count_vote-used :
    (c : Committee) (v : Vote) (a : VotesAggregator)
    → contains a.used v.author ≡ false
    → (count_vote c v a).used ≡ a.used ++ v.author ∷ []
unfolding count_vote
count_vote-used c v a fresh = set_insert_fresh v.author a.used fresh

module _ (c : Committee) (valid : IsValid c) (h : Header) where
  pub count_vote-IsPending :
      (v : Vote) (a : VotesAggregator)
      → 0 < stake c v.author
      → contains a.used v.author ≡ false
      → IsPending c a
      → IsPending c (count_vote c v a)
  unfolding count_vote
  count_vote-IsPending v a rights fresh i =
      IsCounted-snoc c valid a.weight a.votes a.used v.author v.signature i rights fresh

  pub count_vote-IsSettled :
      (v : Vote) (a : VotesAggregator)
      → contains a.used v.author ≡ false
      → IsSettled c a
      → IsSettled c (count_vote c v a)
  unfolding count_vote
  count_vote-IsSettled v a fresh s =
      let total = weight-snoc c valid a.used v.author s.distinct fresh in
      record {
        distinct =
            rw (set_insert_fresh v.author a.used fresh)
              (Distinct-snoc a.used v.author s.distinct fresh);
        spent =
            rw (set_insert_fresh v.author a.used fresh)
              (omega (arith, total.0, total.1, valid.bounded, s.spent));
      }

  -- After a certificate there is not enough stake left for another.
  pub settle-IsSettled :
      (lead : PublicKey) (a : VotesAggregator)
      → IsSettled c a
      → settle_votes c h lead a ≡ (ok none, a)
  unfolding settle_votes
  settle-IsSettled lead a s =
      ground (arith, s.spent, quorum_eq c valid, weight-le-stake_sum c a.used valid s.distinct)

  -- Before it, a certificate comes out exactly when the leader has voted and the voters hold a quorum.
  pub settle-IsPending :
      (lead : PublicKey) (a : VotesAggregator)
      → IsPending c a
      → ((contains a.used lead ≡ true)
          × (quorum_threshold c ≤ weight c a.used)
          × (settle_votes c h lead a
              ≡ (ok (some (record { header = h; votes = a.votes })), record a { weight = 0 }))
          × IsSettled c (record a { weight = 0 }))
        ⊎ (((contains a.used lead ≡ false) ⊎ (weight c a.used < quorum_threshold c))
            × (settle_votes c h lead a ≡ (ok none, a)))
  unfolding settle_votes
  settle-IsPending lead a i = elim (Bool-cases (contains a.used lead)) [
    | inr missing ↦ inr (inl missing, ground arith)
    | inl voted ↦ elim (Bool-cases (leb (quorum_threshold c) a.weight)) [
      | inr short ↦ inr (inr (ground (arith, i.counted)), ground arith)
      | inl reached ↦ inl (
        voted,
        ground (arith, i.counted),
        ground arith,
        record { distinct = i.distinct; spent = ground (arith, i.counted) },
      )
    ]
  ]

-- A certificate is for the header that `append` was given.
pub append_vote-header :
    (v : Vote) (c : Committee) (h : Header) (a a' : VotesAggregator) (x : Certificate)
    → append_vote v c h a ≡ some (ok (some x), a')
    → x.header ≡ h
unfolding append_vote settle_votes
append_vote-header v c h a a' x e = ground arith
