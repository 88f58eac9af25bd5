-- ===== src/Consensus/Steps/Commits.antt =====
-- When a step of consensus/src/lib.rs commits.
use sailfish_test.Prelude.{
  ◌≤◌, ◌<◌, ◌≡◌, inl, inr, [], none, some, arith, sub64, leb, ltb, get, unwrap_or, Bool-cases,
  Option-cases, leb→le,
}
use sailfish_test.Crypto.{Digest, Primitives}
use sailfish_test.Config.{quorum_threshold, validity_threshold}
use sailfish_test.Messages.{Header, Certificate, round_of}
use sailfish_test.Consensus.State.{Authors}
use sailfish_test.Consensus.Order.{leader}
use sailfish_test.Consensus.Steps.{
  Consensus, Stepped, commit, committed, vote_for_leader, try_commit_header, receive_header,
  support, try_commit_certificate, with_certificate, receive_certificate,
}

-- What a certificate brings about: a panic, no more than its own entry, or a commit of the leader of
-- the round before, which no commit has reached and whose children hold the validity threshold.
pub data CertificateStep (p : Primitives) (x : Certificate) (k0 : Consensus) (r : Stepped)
    : Type 0 where
  panics : r ≡ none → CertificateStep p x k0 r
  adds : r ≡ some (with_certificate p x k0, []) → CertificateStep p x k0 r
  commits :
      (d : Digest) (top : Certificate) (authors : Authors)
      → k0.state.last_committed_round < sub64 (round_of x) 1
      → leader k0.committee (sub64 (round_of x) 1) (with_certificate p x k0).state.dag
        ≡ some (some (d, top))
      → get (round_of x) (with_certificate p x k0).state.dag ≡ some authors
      → validity_threshold k0.committee ≤ support k0.committee d authors
      → r
        ≡ committed
            (with_certificate p x k0)
            (commit k0.committee k0.gc_depth top (with_certificate p x k0).state)
      → CertificateStep p x k0 r

pub data HeaderStep (h : Header) (k : Consensus) (r : Stepped) : Type 0 where
  panics : r ≡ none → HeaderStep h k r
  ignores : r ≡ some (k, []) → HeaderStep h k r
  counts :
      (d : Digest) (top : Certificate)
      → leader k.committee (sub64 h.round 1) k.state.dag ≡ some (some (d, top))
      → unwrap_or 0 (get h.round (vote_for_leader h d k).stake_vote) < quorum_threshold k.committee
      → r ≡ some (vote_for_leader h d k, [])
      → HeaderStep h k r
  commits :
      (d : Digest) (top : Certificate)
      → k.state.last_committed_round < sub64 h.round 1
      → leader k.committee (sub64 h.round 1) k.state.dag ≡ some (some (d, top))
      → quorum_threshold k.committee ≤ unwrap_or 0 (get h.round (vote_for_leader h d k).stake_vote)
      → r ≡ committed (vote_for_leader h d k) (commit k.committee k.gc_depth top k.state)
      → HeaderStep h k r

pub receive_certificate-cases :
    (p : Primitives) (x : Certificate) (k : Consensus)
    → CertificateStep p x k (receive_certificate p x k)
unfolding receive_certificate try_commit_certificate with_certificate
receive_certificate-cases p x k =
    elim (Bool-cases (leb (sub64 (round_of x) 1) k.state.last_committed_round)) [
      | inl old ↦ adds (rw old)
      | inr new ↦
          elim (Option-cases
            (leader k.committee (sub64 (round_of x) 1) (with_certificate p x k).state.dag)) [
              | inl panic ↦ panics (rw (new, panic))
              | inr (none, e) ↦ adds (rw (new, e))
              | inr (some (d, top), e) ↦
                  elim (Option-cases (get (round_of x) (with_certificate p x k).state.dag)) [
                    | inl panic ↦ panics (rw (new, e, panic))
                    | inr (authors, e') ↦
                        elim (Bool-cases
                          (ltb (support k.committee d authors) (validity_threshold k.committee))) [
                            | inl short ↦ adds (rw (new, e, e', short))
                            | inr reached ↦
                                commits d top authors (ground (arith, new)) e e'
                                  (ground (arith, reached)) (rw (new, e, e', reached))
                          ]
                  ]
            ]
    ]

pub receive_header-cases : (h : Header) (k : Consensus) → HeaderStep h k (receive_header h k)
unfolding receive_header try_commit_header
receive_header-cases h k = elim (Bool-cases (leb (sub64 h.round 1) k.state.last_committed_round)) [
  | inl old ↦ ignores (rw old)
  | inr new ↦ elim (Option-cases (leader k.committee (sub64 h.round 1) k.state.dag)) [
    | inl panic ↦ panics (rw (new, panic))
    | inr (none, e) ↦ ignores (rw (new, e))
    | inr (some (d, top), e) ↦
        elim (Bool-cases (
          leb (quorum_threshold k.committee)
            (unwrap_or 0 (get h.round (vote_for_leader h d k).stake_vote)))) [
              | inl reached ↦
                  commits d top (ground (arith, new)) e (leb→le _ _ reached) (rw (new, e, reached))
              | inr short ↦ counts d top e (ground (arith, short)) (rw (new, e, short))
            ]
  ]
]
