-- ===== src/Messages/Checks.antt =====
-- The `verify` methods of primary/src/messages.rs.
use sailfish_test.Prelude.{
  ℕ, List, [], ◌∷◌, not, any, add32, ◌==◌, if◌then◌else◌, ltb, leb, contains, set_insert, values,
}
use sailfish_test.Crypto.{PublicKey, Primitives, verify, verify_batch}
use sailfish_test.Config.{Committee, WorkerId, stake, quorum_threshold, worker}
use sailfish_test.Config
use sailfish_test.Messages.{
  DagResult, ok, err, ◌>>=◌, ◌>>◌, ensure, invalid_signature, invalid_header_id, malformed_header,
  unknown_authority, authority_reuse, certificate_requires_quorum, Signed, Header, Timeout,
  NoVoteMsg, Vote, TimeoutCert, NoVoteCert, Certificate, same_certificate, genesis, header_digest,
  timeout_digest, no_vote_digest, vote_digest, certificate_digest,
}

-- The loop that three of the methods share: no name twice, each with voting rights, and the sum of
-- their stakes.
unfoldable pub tally : Committee → List PublicKey → ℕ → Signed → DagResult ℕ
tally c used weight [] = ok weight
tally c used weight ((name, _) ∷ rest) =
    let next = tally c (set_insert name used) (add32 weight (stake c name)) rest in
    ensure (not (contains used name)) (authority_reuse name)
    >> (ensure (ltb 0 (stake c name)) (unknown_authority name) >> next)

unfoldable pub check_quorum : Committee → Signed → DagResult (Unit {0})
check_quorum c votes = do
  weight ← tally c [] 0 votes
  ensure (leb (quorum_threshold c) weight) certificate_requires_quorum

unfoldable pub verify_timeout_cert : Committee → TimeoutCert → DagResult (Unit {0})
verify_timeout_cert c t = check_quorum c t.timeouts

unfoldable pub verify_no_vote_cert : Committee → NoVoteCert → DagResult (Unit {0})
verify_no_vote_cert c n = check_quorum c n.no_votes

-- Every worker of the payload is one of the author's.
unfoldable pub check_workers : Committee → Header → List WorkerId → DagResult (Unit {0})
check_workers c h [] = ok tt
check_workers c h (id ∷ rest) =
    let next = check_workers c h rest in
    elim (worker c h.author id) [
      | Config.ConfigResult.ok _ ↦ next
      | Config.ConfigResult.err _ ↦ err (malformed_header h.id)
    ]

module _ (p : Primitives) (c : Committee) where
  unfoldable pub verify_header : Header → DagResult (Unit {0})
  verify_header h = do
    ensure (header_digest p h == h.id) invalid_header_id
    ensure (ltb 0 (stake c h.author)) (unknown_authority h.author)
    check_workers c h (values h.payload)
    ensure (verify p h.signature h.id h.author) invalid_signature

  unfoldable pub verify_timeout : Timeout → DagResult (Unit {0})
  verify_timeout t = do
    ensure (ltb 0 (stake c t.author)) (unknown_authority t.author)
    ensure (verify p t.signature (timeout_digest p t) t.author) invalid_signature

  unfoldable pub verify_no_vote : NoVoteMsg → DagResult (Unit {0})
  verify_no_vote m = do
    ensure (ltb 0 (stake c m.author)) (unknown_authority m.author)
    ensure (verify p m.signature (no_vote_digest p m) m.author) invalid_signature

  unfoldable pub verify_vote : Vote → DagResult (Unit {0})
  verify_vote v = do
    ensure (ltb 0 (stake c v.author)) (unknown_authority v.author)
    ensure (verify p v.signature (vote_digest p v) v.author) invalid_signature

  -- A certificate that equals one of the genesis passes; any other has a valid header and a quorum
  -- of votes, each of which signs the digest of the certificate.
  unfoldable pub verify_certificate : Certificate → DagResult (Unit {0})
  verify_certificate cert = if any (λ g. same_certificate g cert) (genesis c) then ok tt else do
    verify_header cert.header
    check_quorum c cert.votes
    ensure (verify_batch p (certificate_digest p cert) cert.votes) invalid_signature
