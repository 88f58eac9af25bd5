-- ===== src/Examples/MessageCases.antt =====
-- The checks of primary/src/messages.rs on messages of four authorities.
use sailfish_test.Prelude.{
  ℕ, ◌≤◌, ◌≡◌, refl, ◌↔◌, List, [], ◌∷◌, map, ◌&&◌, contains, keys, be_bytes, le_bytes,
}
use sailfish_test.Crypto.{PublicKey, verify, decodes, verify_batch}
use sailfish_test.Config.{stake, sum32, total_votes, quorum_threshold, validity_threshold, worker}
use sailfish_test.Config.Stakes.{held_by}
use sailfish_test.Messages.{
  ok, Signed, Header, Certificate, TimeoutCert, NoVoteCert, new_header, new_timeout_cert,
  new_no_vote_cert, header_digest, payload_bytes, parents_bytes, certificate_digest, genesis,
}
use sailfish_test.Messages.Checks.{
  check_quorum, tally, verify_header, verify_timeout_cert, verify_no_vote_cert, verify_certificate,
  check_workers,
}
use sailfish_test.Messages.Quorum.{IsQuorum, check_quorum_iff, certificates_overlap}
use sailfish_test.Messages.Digests.{verify_header-certs, verify_certs-names_only}
use sailfish_test.Examples.Fixtures.{committee, primitives}
use sailfish_test.Examples.ConfigCases.{committee-IsValid}

abbrev pub sign_all : ℕ → List PublicKey → Signed
sign_all d names = map (λ n. (n, record { part1 = d; part2 = 0 })) names

check_quorum_iff_example :
    (check_quorum committee (sign_all 5 (1 ∷ 2 ∷ 4 ∷ [])) ≡ ok tt)
    ↔ IsQuorum committee (sign_all 5 (1 ∷ 2 ∷ 4 ∷ []))
check_quorum_iff_example =
    check_quorum_iff committee (sign_all 5 (1 ∷ 2 ∷ 4 ∷ [])) committee-IsValid

three_pass : check_quorum committee (sign_all 5 (1 ∷ 2 ∷ 4 ∷ [])) ≡ ok tt
unfolding check_quorum tally stake quorum_threshold total_votes sum32
three_pass = refl

-- A header with one batch of its worker 0, made and signed by authority 1.
abbrev pub own_header : Header
own_header =
    new_header primitives 1 1 ((9, 0) ∷ []) (11 ∷ 12 ∷ []) (new_timeout_cert 0) (new_no_vote_cert 0)

abbrev some_timeouts : TimeoutCert
some_timeouts = record { round = 6; timeouts = sign_all 6 (1 ∷ 2 ∷ 3 ∷ []) }

abbrev some_no_votes : NoVoteCert
some_no_votes = record { round = 6; no_votes = sign_all 6 (2 ∷ 3 ∷ 4 ∷ []) }

verify_header-certs_example :
    verify_header primitives committee
      (record own_header { timeout_cert = some_timeouts; no_vote_cert = some_no_votes })
    ≡ verify_header primitives committee own_header
verify_header-certs_example =
    verify_header-certs primitives committee own_header some_timeouts some_no_votes

-- Another round and other signatures.
abbrev other_timeouts : TimeoutCert
other_timeouts = record { round = 0; timeouts = sign_all 0 (1 ∷ 2 ∷ 3 ∷ []) }

abbrev other_no_votes : NoVoteCert
other_no_votes = record { round = 0; no_votes = sign_all 0 (2 ∷ 3 ∷ 4 ∷ []) }

verify_certs-names_only_example :
    (verify_timeout_cert committee some_timeouts ≡ verify_timeout_cert committee other_timeouts)
    × (verify_no_vote_cert committee some_no_votes ≡ verify_no_vote_cert committee other_no_votes)
verify_certs-names_only_example =
    verify_certs-names_only committee some_timeouts other_timeouts some_no_votes other_no_votes refl
      refl

-- A certificate of the header with votes of three authorities.
abbrev certified : List PublicKey → Certificate
certified names =
    let unsigned : Certificate = record { header = own_header; votes = [] } in
    record unsigned { votes = sign_all (certificate_digest primitives unsigned) names }

certificates_overlap_example :
    validity_threshold committee
    ≤ held_by
        (λ n.
          contains (keys (certified (1 ∷ 2 ∷ 3 ∷ [])).votes) n
          && contains (keys (certified (2 ∷ 3 ∷ 4 ∷ [])).votes) n)
        committee.authorities
unfolding verify_certificate verify_header verify verify_batch decodes check_quorum tally
    check_workers worker stake quorum_threshold total_votes sum32 genesis new_header header_digest
    payload_bytes parents_bytes certificate_digest be_bytes le_bytes
certificates_overlap_example =
    certificates_overlap primitives committee (certified (1 ∷ 2 ∷ 3 ∷ []))
      (certified (2 ∷ 3 ∷ 4 ∷ [])) committee-IsValid refl refl refl refl
