-- ===== src/Core/Sanitize.antt =====
-- The checks of primary/src/core.rs on what arrives from other primaries.
use sailfish_test.Prelude.{◌&&◌, ◌==◌, leb}
use sailfish_test.Crypto.{Primitives}
use sailfish_test.Messages.{
  DagResult, ensure, ◌>>◌, too_old, unexpected_vote, Header, Timeout, NoVoteMsg, Vote, Certificate,
  round_of, timeout_digest, no_vote_digest, vote_digest, certificate_digest,
}
use sailfish_test.Messages.Checks.{
  verify_header, verify_timeout, verify_no_vote, verify_vote, verify_certificate,
}
use sailfish_test.Core.{Core}

module _ (p : Primitives) (k : Core) where
  unfoldable pub sanitize_header : Header → DagResult (Unit {0})
  sanitize_header h = do
    ensure (leb k.gc_round h.round) (too_old h.id h.round)
    verify_header p k.committee h

  unfoldable pub sanitize_timeout : Timeout → DagResult (Unit {0})
  sanitize_timeout t = do
    ensure (leb k.gc_round t.round) (too_old (timeout_digest p t) t.round)
    verify_timeout p k.committee t

  unfoldable pub sanitize_no_vote_msg : NoVoteMsg → DagResult (Unit {0})
  sanitize_no_vote_msg m = do
    ensure (leb k.gc_round m.round) (too_old (no_vote_digest p m) m.round)
    verify_no_vote p k.committee m

  unfoldable pub sanitize_vote : Vote → DagResult (Unit {0})
  sanitize_vote v = do
    ensure (leb k.current_header.round v.round) (too_old (vote_digest p v) v.round)
    ensure
        (v.id == k.current_header.id
          && v.origin == k.current_header.author
          && v.round == k.current_header.round)
        (unexpected_vote v.id)
    verify_vote p k.committee v

  unfoldable pub sanitize_certificate : Certificate → DagResult (Unit {0})
  sanitize_certificate x = do
    ensure (leb k.gc_round (round_of x)) (too_old (certificate_digest p x) (round_of x))
    verify_certificate p k.committee x
