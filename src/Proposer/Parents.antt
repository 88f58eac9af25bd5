-- ===== src/Proposer/Parents.antt =====
-- The parents of the headers of primary/src/proposer.rs, and what primary/src/core.rs says of them.
use sailfish_test.Prelude.{
  ℕ, ◌+◌, ◌<◌, ◌≡◌, ◌≢◌, refl, List, [], ◌∷◌, Bool, true, false, some, arith, ◌==◌, add64, All,
  u64_mod, ◌∙◌, ◌≤◌, lt→ltb, Distinct, is_empty,
}
use sailfish_test.Crypto.{PublicKey, Primitives}
use sailfish_test.Config.{Committee, leader, quorum_threshold}
use sailfish_test.Messages.{
  Round, Header, Certificate, round_of, malformed_header, TimeoutCert, ok, new_header,
}
use sailfish_test.Messages.Checks.{verify_timeout_cert, verify_no_vote_cert}
use sailfish_test.Core.Sync.{get_parents}
use sailfish_test.Proposer.Resolve.{
  parents_weight, has_origin, digests_of, sorted_from, sorted_from-All, sorted_from-nonempty,
  IsKnown, get_parents-known,
}
use sailfish_test.Core.{Codec, Core, failed, done, try_}
use sailfish_test.Core.Handlers.{check_parents, validate_parents}
use sailfish_test.Proposer.{Proposer, collect_set, receive_timeout_cert, header_by}

-- The parents that wait are of the current round.
unfoldable pub IsCurrent : Proposer → Type 0
IsCurrent s = All (λ x. round_of x ≡ s.round) s.last_parents

-- A parent of another round: the core of every receiver refuses the header.
check_parents-refuses :
    (c : Committee) (h : Header) (weight : ℕ) (has_leader : Bool) (x : Certificate)
    (xs : List Certificate) (k : Core)
    → (add64 (round_of x) 1 == h.round) ≡ false
    → check_parents c h weight has_leader (x ∷ xs) k ≡ (failed (malformed_header h.id), k)
unfolding check_parents try_
check_parents-refuses c h w b x xs k e = rw e refl

validate_parents-refuses :
    (c : Committee) (h : Header) (r : Round) (xs : List Certificate) (k : Core)
    → is_empty xs ≡ false
    → (add64 r 1 == h.round) ≡ false
    → All (λ x. round_of x ≡ r) xs
    → validate_parents c h xs k ≡ (failed (malformed_header h.id), k)
unfolding validate_parents try_
validate_parents-refuses c h r [] k full other a = cc
validate_parents-refuses c h r (x ∷ xs) k full other a =
    ground (arith, check_parents-refuses c h 0 false x xs k (rw a.0 other))

-- What the proposer relies on: the parents that it has are of its round, each once, and hold a quorum;
-- the certificates of its round that the core sent are valid; it takes the leader to be there only if it
-- is among the parents; and its round is not at the end of the words.
pub record IsFed (p : Primitives) (s : Proposer) : Type 0 where
  pub current : IsCurrent s
  pub distinct : Distinct (digests_of p s.last_parents)
  pub quorum : quorum_threshold s.committee ≤ parents_weight s.committee 0 s.last_parents
  pub small : s.round + 1 < u64_mod
  pub timeouts :
      s.last_timeout_cert.round ≡ s.round
      → verify_timeout_cert s.committee s.last_timeout_cert ≡ ok tt
  pub no_votes :
      s.last_no_vote_cert.round ≡ s.round
      → verify_no_vote_cert s.committee s.last_no_vote_cert ≡ ok tt
  pub happy :
      (lead : PublicKey)
      → s.advance ≡ true
      → leader s.committee s.round ≡ some lead
      → has_origin lead s.last_parents ≡ true

module _ (p : Primitives) where
  -- The header that is made next after a timeout certificate.
  abbrev pub header_after : TimeoutCert → Round → PublicKey → Proposer → Header
  header_after t r next s =
      let moved = receive_timeout_cert t r s in
      header_by p next (record moved { round = add64 moved.round 1 })

  -- The parents at hand are of the current round. A timeout certificate of a round above that of the last
  -- one, and other than the current round, moves the round of the proposer and leaves the parents as
  -- they are, where both rounds fit in a word. A core whose database does not fail has these parents, by
  -- their digests, in the genesis or in its store. Then for the header that is made of them for the round
  -- after it finds certificates, and refuses the header as malformed.
  pub timeout-refused :
      (b : Codec) (t : TimeoutCert) (r : Round) (next : PublicKey) (s : Proposer) (k : Core)
      → IsCurrent s
      → is_empty s.last_parents ≡ false
      → s.last_timeout_cert.round < r
      → r ≢ s.round
      → r < u64_mod
      → s.round < u64_mod
      → k.store.broken ≡ false
      → All (IsKnown p b k) s.last_parents
      → ((receive_timeout_cert t r s).last_parents ≡ s.last_parents)
        × ((receive_timeout_cert t r s).round ≡ r)
        × (parents : List Certificate) × (get_parents p b (header_after t r next s) k
            ≡ (done parents, k))
        × (is_empty parents ≡ false)
        × (validate_parents k.committee (header_after t r next s) parents k
            ≡ (failed (malformed_header (header_after t r next s).id), k))
  unfolding receive_timeout_cert header_by new_header IsCurrent
  timeout-refused b t r next s k current some_parents late other small small' well known =
      let h : Header = header_after t r next s in
      let rh : h.round ≡ add64 r 1 = rw (lt→ltb _ _ late) refl in
      let ph : h.parents ≡ collect_set [] (digests_of p s.last_parents) =
        rw (lt→ltb _ _ late) refl in
      let full = sorted_from-nonempty p [] s.last_parents ∙ some_parents in
      (
        rw (lt→ltb _ _ late) refl,
        rw (lt→ltb _ _ late) refl,
        sorted_from p [] s.last_parents,
        get_parents-known p b k h s.last_parents well known ph,
        full,
        validate_parents-refuses k.committee h s.round (sorted_from p [] s.last_parents) k full
            (ground (arith, rh, other, small, small'))
            (sorted_from-All p (λ x. round_of x ≡ s.round) [] s.last_parents current tt),
      )
