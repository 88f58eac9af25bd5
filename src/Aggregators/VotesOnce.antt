-- ===== src/Aggregators/VotesOnce.antt =====
-- The votes of primary/src/aggregators.rs over a whole sequence of `append` calls on one header.
use mathlib.Core.List.{append-nil, append_assoc}
use sailfish_test.Prelude.{
  ◌≤◌, ◌<◌, ◌≡◌, refl, ◌⊎◌, inl, inr, List, [], ◌∷◌, ◌++◌, true, false, Option, none, some, arith,
  contains, map, Distinct, All, length, ap, ◌∙◌, subst, sym, keys,
}
use sailfish_test.Crypto.{PublicKey}
use sailfish_test.Config.{Committee, stake, quorum_threshold, leader}
use sailfish_test.Config.Stakes.{IsValid, weight}
use sailfish_test.Messages.{Round, DagResult, ok, Header, Vote, Certificate}
use sailfish_test.Messages.Quorum.{IsQuorum, Distinct-middle}
use sailfish_test.Aggregators.{VotesAggregator, append_vote, settle_votes, count_vote, new_votes}
use sailfish_test.Aggregators.Counted.{IsCounted-IsQuorum}
use sailfish_test.Aggregators.Votes.{
  IsPending, IsSettled, emitted, panics, repeated, counts, append_vote-cases, count_vote-IsPending,
  count_vote-IsSettled, settle-IsSettled, settle-IsPending, count_vote-used,
}

-- The certificates that come out of a sequence of votes; a panic ends it.
pub assembled : Committee → Header → VotesAggregator → List Vote → List Certificate
assembled c h a [] = []
assembled c h a (v ∷ vs) = elim (append_vote v c h a) [
  | none ↦ []
  | some (r, a') ↦ emitted r ++ assembled c h a' vs
]

assembled-panics :
    (c : Committee) (h : Header) (a : VotesAggregator) (v : Vote) (vs : List Vote)
    → append_vote v c h a ≡ none
    → assembled c h a (v ∷ vs) ≡ []
unfolding assembled
assembled-panics c h a v vs e = rw (e, assembled)

assembled-some :
    (c : Committee) (h : Header) (a a' : VotesAggregator) (r : DagResult (Option Certificate))
    (v : Vote) (vs : List Vote)
    → append_vote v c h a ≡ some (r, a')
    → assembled c h a (v ∷ vs) ≡ emitted r ++ assembled c h a' vs
unfolding assembled
assembled-some c h a a' r v vs e = rw (e, assembled)

-- What a sequence of votes of one round may bring: nothing, or one certificate of a quorum that has
-- the leader of the round in it.
pub data Assembled (c : Committee) (h : Header) (r : Round) (l : List Certificate) : Type 0 where
  nothing : l ≡ [] → Assembled c h r l
  one :
      (cert : Certificate) (lead : PublicKey)
      → l ≡ cert ∷ []
      → cert.header ≡ h
      → IsQuorum c cert.votes
      → leader c r ≡ some lead
      → contains (keys cert.votes) lead ≡ true
      → Assembled c h r l

-- A vote that passed `sanitize_vote` for a header of the round.
pub record IsSanitized (c : Committee) (r : Round) (v : Vote) : Type 0 where
  pub rights : 0 < stake c v.author
  pub in_round : v.round ≡ r

abbrev pub authors : List Vote → List PublicKey
authors vs = map (λ v. v.author) vs

module _ (c : Committee) (valid : IsValid c) (h : Header) where
  settled-assembled :
      (a : VotesAggregator) (vs : List Vote) → IsSettled c a → assembled c h a vs ≡ []
  unfolding assembled
  settled-assembled a [] s = refl
  settled-assembled a (v ∷ vs) s = elim (append_vote-cases v c h a) [
    | panics _ e ↦ assembled-panics c h a v vs e
    | repeated old e ↦ assembled-some c h a a _ v vs e ∙ settled-assembled a vs s
    | counts lead fresh l e ↦
        let s' = count_vote-IsSettled c valid h v a fresh s in
        assembled-some c h a (count_vote c v a) (ok none) v vs
          (e ∙ ap some (settle-IsSettled c valid h lead (count_vote c v a) s'))
        ∙ settled-assembled (count_vote c v a) vs s'
  ]

  -- A certificate has come out of the vote of `lead` or a later one; nothing comes after it.
  settled-after :
      (a : VotesAggregator) (v : Vote) (vs : List Vote) (lead : PublicKey)
      → append_vote v c h a ≡ some (settle_votes c h lead (count_vote c v a))
      → settle_votes c h lead (count_vote c v a) ≡ (
        ok (some (record { header = h; votes = (count_vote c v a).votes })),
        record (count_vote c v a) { weight = 0 },
      )
      → IsSettled c (record (count_vote c v a) { weight = 0 })
      → assembled c h a (v ∷ vs) ≡ record { header = h; votes = (count_vote c v a).votes } ∷ []
  settled-after a v vs lead e e' s =
      assembled-some c h a _ _ v vs (e ∙ ap some e')
      ∙ ap (◌∷◌ (record { header = h; votes = (count_vote c v a).votes }))
          (settled-assembled _ vs s)

  passed-over :
      (a : VotesAggregator) (v : Vote) (vs : List Vote) (lead : PublicKey)
      → append_vote v c h a ≡ some (settle_votes c h lead (count_vote c v a))
      → settle_votes c h lead (count_vote c v a) ≡ (ok none, count_vote c v a)
      → assembled c h a (v ∷ vs) ≡ assembled c h (count_vote c v a) vs
  passed-over a v vs lead e e' = assembled-some c h a _ _ v vs (e ∙ ap some e')

  pending-Assembled :
      (r : Round) (a : VotesAggregator) (vs : List Vote)
      → IsPending c a
      → All (IsSanitized c r) vs
      → Assembled c h r (assembled c h a vs)
  unfolding assembled
  pending-Assembled r a [] i ok_votes = nothing refl
  pending-Assembled r a (v ∷ vs) i ok_votes = elim (append_vote-cases v c h a) [
    | panics _ e ↦ nothing (assembled-panics c h a v vs e)
    | repeated old e ↦
        subst (Assembled c h r) (sym (assembled-some c h a a _ v vs e))
          (pending-Assembled r a vs i ok_votes.1)
    | counts lead fresh l e ↦
        let i' = count_vote-IsPending c valid h v a ok_votes.0.rights fresh i in
        elim (settle-IsPending c valid h lead (count_vote c v a) i') [
          | inl (voted, reached, e', s) ↦
              one (record { header = h; votes = (count_vote c v a).votes }) lead
                (settled-after a v vs lead e e' s) refl
                (IsCounted-IsQuorum c _ _ _ i' (rw i'.counted reached))
                (rw (← ok_votes.0.in_round) l) (rw i'.names voted)
          | inr (_, e') ↦
              subst (Assembled c h r) (sym (passed-over a v vs lead e e'))
                (pending-Assembled r (count_vote c v a) vs i' ok_votes.1)
        ]
  ]

  -- On a valid committee, whatever votes of one round, of authorities with voting rights, reach a
  -- new aggregator, in whatever order and however often, at most one certificate comes out. It is
  -- for the header that was given, its voters are a quorum of distinct authorities, and the leader
  -- of the round is among them.
  pub votes_once :
      (r : Round) (vs : List Vote)
      → All (IsSanitized c r) vs
      → Assembled c h r (assembled c h new_votes vs)
  votes_once r vs ok_votes =
      pending-Assembled r new_votes vs
        (record { names = refl; distinct = tt; voting = tt; counted = refl }) ok_votes

  pending_complete :
      (r : Round) (lead : PublicKey) (a : VotesAggregator) (vs : List Vote)
      → IsPending c a
      → All (IsSanitized c r) vs
      → leader c r ≡ some lead
      → Distinct (a.used ++ authors vs)
      → contains (a.used ++ authors vs) lead ≡ true
      → quorum_threshold c ≤ weight c (a.used ++ authors vs)
      → (contains a.used lead ≡ false) ⊎ (weight c a.used < quorum_threshold c)
      → length (assembled c h a vs) ≡ 1
  pending_complete r lead a [] i ok_votes l d has q wait = absurd (
      ground (
        arith,
        append-nil a.used,
        ap (λ u. contains u lead) (append-nil a.used),
        ap (weight c) (append-nil a.used),
      ))
  pending_complete r lead a (v ∷ vs) i ok_votes l d has q wait =
      let fresh = Distinct-middle a.used v.author (authors vs) d in
      elim (append_vote-cases v c h a) [
        | panics empty e ↦ absurd (cc (ok_votes.0.in_round))
        | repeated old e ↦ absurd (cc fresh)
        | counts lead' _ l' e ↦
            let i' = count_vote-IsPending c valid h v a ok_votes.0.rights fresh i in
            let same : lead' ≡ lead = cc (ok_votes.0.in_round) in
            let used : a.used ++ authors (v ∷ vs) ≡ (count_vote c v a).used ++ authors vs =
              rw (count_vote-used c v a fresh)
                (sym (append_assoc a.used (v.author ∷ []) (authors vs))) in
            elim (settle-IsPending c valid h lead' (count_vote c v a) i') [
              | inl (voted, reached, e', s) ↦ ap length (settled-after a v vs lead' e e' s)
              | inr (wait', e') ↦
                  ap length (passed-over a v vs lead' e e')
                  ∙ pending_complete r lead (count_vote c v a) vs i' ok_votes.1 l
                      (subst Distinct used d) (subst (λ u. contains u lead ≡ true) used has)
                      (subst (λ u. quorum_threshold c ≤ weight c u) used q) (rw (← same) wait')
            ]
      ]

  -- On a valid committee, votes of one round, of distinct authorities with voting rights that hold
  -- together a quorum, the leader of the round among them, bring exactly one certificate from a new
  -- aggregator, in whatever order they arrive.
  pub votes_complete :
      (r : Round) (lead : PublicKey) (vs : List Vote)
      → All (IsSanitized c r) vs
      → leader c r ≡ some lead
      → Distinct (authors vs)
      → contains (authors vs) lead ≡ true
      → quorum_threshold c ≤ weight c (authors vs)
      → length (assembled c h new_votes vs) ≡ 1
  votes_complete r lead vs ok_votes l d has q =
      pending_complete r lead new_votes vs
        (record { names = refl; distinct = tt; voting = tt; counted = refl }) ok_votes l d has q
        (inl refl)
