-- ===== src/Aggregators/Timeouts.antt =====
-- The timeouts of primary/src/aggregators.rs.
use sailfish_test.Prelude.{
  ◌≤◌, ◌<◌, ◌≡◌, refl, inl, inr, [], ◌∷◌, ◌++◌, true, false, Option, none, some, arith, leb,
  contains, set_insert_fresh, Bool-cases, subst, sym, leb→le,
}
use sailfish_test.Config.{Committee, stake, quorum_threshold}
use sailfish_test.Config.Stakes.{IsValid, weight}
use sailfish_test.Messages.{DagResult, ok, err, authority_reuse, Timeout, TimeoutCert}
use sailfish_test.Messages.Quorum.{check_quorum_iff}
use sailfish_test.Messages.Checks.{verify_timeout_cert}
use sailfish_test.Aggregators.{TimeoutAggregator, append_timeout, count_timeout, certify_timeouts}
use sailfish_test.Aggregators.Counted.{IsCounted, IsCounted-snoc, IsCounted-IsQuorum}

-- What an `append` of a timeout does: it refuses an author that it has seen; else it counts the
-- timeout, and gives a certificate that verifies when the authors hold a quorum, and none before.
pub data TimeoutAppended (c : Committee) (t : Timeout) (a : TimeoutAggregator)
    (r : DagResult (Option TimeoutCert)) (a' : TimeoutAggregator) : Type 0 where
  refused :
      contains a.used t.author ≡ true
      → r ≡ err (authority_reuse t.author)
      → a' ≡ a
      → TimeoutAppended c t a r a'
  waits :
      contains a.used t.author ≡ false
      → r ≡ ok none
      → a'.used ≡ a.used ++ t.author ∷ []
      → weight c a'.used < quorum_threshold c
      → TimeoutAppended c t a r a'
  certifies :
      (cert : TimeoutCert)
      → contains a.used t.author ≡ false
      → r ≡ ok (some cert)
      → a'.used ≡ a.used ++ t.author ∷ []
      → quorum_threshold c ≤ weight c a'.used
      → cert.round ≡ t.round
      → cert.timeouts ≡ a.timeouts ++ (t.author, t.signature) ∷ []
      → verify_timeout_cert c cert ≡ ok tt
      → TimeoutAppended c t a r a'

abbrev pub IsTimeoutCount : Committee → TimeoutAggregator → Type 0
IsTimeoutCount c a = IsCounted c a.weight a.timeouts a.used

append_timeout_seen :
    (c : Committee) (t : Timeout) (a : TimeoutAggregator)
    → contains a.used t.author ≡ true
    → append_timeout t c a ≡ (err (authority_reuse t.author), a)
unfolding append_timeout
append_timeout_seen c t a old = rw old

append_timeout_fresh :
    (c : Committee) (t : Timeout) (a : TimeoutAggregator)
    → contains a.used t.author ≡ false
    → append_timeout t c a ≡ (certify_timeouts c t (count_timeout t c a), count_timeout t c a)
unfolding append_timeout
append_timeout_fresh c t a fresh = rw fresh

count_timeout-used :
    (c : Committee) (t : Timeout) (a : TimeoutAggregator)
    → contains a.used t.author ≡ false
    → (count_timeout t c a).used ≡ a.used ++ t.author ∷ []
unfolding count_timeout
count_timeout-used c t a fresh = set_insert_fresh t.author a.used fresh

certify_timeouts-Appended :
    (c : Committee) (t : Timeout) (a : TimeoutAggregator)
    → IsValid c
    → contains a.used t.author ≡ false
    → IsTimeoutCount c (count_timeout t c a)
    → TimeoutAppended c t a (certify_timeouts c t (count_timeout t c a)) (count_timeout t c a)
unfolding certify_timeouts
certify_timeouts-Appended c t a valid fresh i =
    elim (Bool-cases (leb (quorum_threshold c) (count_timeout t c a).weight)) [
      | inr short ↦
          waits fresh (rw short) (count_timeout-used c t a fresh) (ground (arith, i.counted))
      | inl reached ↦
          certifies (record { round = t.round; timeouts = (count_timeout t c a).timeouts }) fresh
            (rw reached) (count_timeout-used c t a fresh) (ground (arith, i.counted)) refl
            (unfold count_timeout in refl)
            (unfold verify_timeout_cert in
              (check_quorum_iff c (count_timeout t c a).timeouts valid).1
                (IsCounted-IsQuorum c _ _ _ i (leb→le _ _ reached)))
    ]

-- On a valid committee, an aggregator whose set of authors and weight are those of the timeouts
-- that it holds stays so after a timeout of an authority with voting rights. An author that was
-- seen before is refused and changes nothing. Any other timeout is counted; when the authors so far
-- hold a quorum, a certificate of all their timeouts comes out, which passes verification, and none
-- comes out before.
pub append_timeout-Appended :
    (c : Committee) (t : Timeout) (a : TimeoutAggregator)
    → IsValid c
    → 0 < stake c t.author
    → IsTimeoutCount c a
    → IsTimeoutCount c (append_timeout t c a).1
      × TimeoutAppended c t a (append_timeout t c a).0 (append_timeout t c a).1
append_timeout-Appended c t a valid rights i = elim (Bool-cases (contains a.used t.author)) [
  | inl old ↦
      subst (λ x. IsTimeoutCount c x.1 × TimeoutAppended c t a x.0 x.1)
        (sym (append_timeout_seen c t a old)) (i, refused old refl refl)
  | inr fresh ↦
      let i' : IsTimeoutCount c (count_timeout t c a) =
        unfold count_timeout in
        IsCounted-snoc c valid a.weight a.timeouts a.used t.author t.signature i rights fresh in
      subst (λ x. IsTimeoutCount c x.1 × TimeoutAppended c t a x.0 x.1)
        (sym (append_timeout_fresh c t a fresh))
        (i', certify_timeouts-Appended c t a valid fresh i')
]
