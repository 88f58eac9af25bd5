-- ===== src/Core/Handlers.antt =====
-- The handlers of primary/src/core.rs. `process_header`, `process_vote` and `process_certificate` call
-- one another: each takes the next as an argument, and `process_vote` closes the circle on fuel.
use sailfish_test.Prelude.{
  ℕ, zero, suc, List, [], ◌∷◌, map, Bool, false, not, ◌||◌, Option, none, some, add32, add64, sub64,
  ◌==◌, leb, if◌then◌else◌, contains, set_insert, get, insert, unwrap_or, is_empty, contains_key,
}
use sailfish_test.Crypto.{Digest, PublicKey, Primitives}
use sailfish_test.Config.{
  Committee, SocketAddr, PrimaryAddresses, ConfigResult, stake, quorum_threshold, leader, primary,
  others_primaries,
}
use sailfish_test.Config
use sailfish_test.Messages.{
  ensure, malformed_header, header_requires_quorum, Round, Header, Timeout, NoVoteMsg, Vote,
  Certificate, round_of, origin, new_vote, new_no_vote, certificate_digest,
}
use sailfish_test.Messages.Checks.{verify_timeout_cert, verify_no_vote_cert}
use sailfish_test.Aggregators.{
  new_votes, new_certificates, new_timeouts, new_no_votes, append_vote, append_certificate,
  append_timeout, append_no_vote,
}
use sailfish_test.Core.{
  Codec, Bytes, Store, Core, Handler, Outcome, out_of_fuel, ◌>>=◌, ◌>>◌, pure, gets, modify, emit,
  try_, expect, expect_ok, add_handlers, broadcast, send, consensus_header, consensus, proposer,
  proposer_timeout_cert, proposer_no_vote_cert,
}
use sailfish_test.Core
use sailfish_test.Core.Sync.{get_parents, missing_payload, deliver_certificate}

abbrev others_addresses : Core → List SocketAddr
others_addresses k = map (λ e. e.1.primary_to_primary) (others_primaries k.committee k.name)

abbrev address_of : ConfigResult PrimaryAddresses → Option SocketAddr
address_of (Config.ConfigResult.ok a) = some a.primary_to_primary
address_of (Config.ConfigResult.err e) = none

-- Broadcast a message of a round, and keep its cancel handlers.
unfoldable pub broadcast_round : Round → Core.PrimaryMessage → Handler (Unit {0})
broadcast_round r m k =
    (emit (broadcast (others_addresses k) m) >> modify (add_handlers r (others_addresses k))) k

-- Send a message of a round to one primary, which must be in the committee.
unfoldable pub send_round : Round → PublicKey → Core.PrimaryMessage → Handler (Unit {0})
send_round r to m k =
    (do
      address ← expect (address_of (primary k.committee to))
      emit (send address m)
      modify (add_handlers r (address ∷ [])))
      k

unfoldable pub process_timeout : Timeout → Handler (Unit {0})
process_timeout t k =
    let (r, a) =
      append_timeout t k.committee (unwrap_or new_timeouts (get t.round k.timeouts_aggregators)) in
    (do
      modify (λ k. record k { timeouts_aggregators = insert t.round a k.timeouts_aggregators })
      cert ← try_ r
      elim cert [ none ↦ pure tt | some c ↦ emit (proposer_timeout_cert c t.round) ])
      k

unfoldable pub process_own_timeout : Timeout → Handler (Unit {0})
unfolding broadcast_round
process_own_timeout t = do
  broadcast_round t.round (Core.PrimaryMessage.timeout t)
  process_timeout t

-- To the leader of the next round.
unfoldable pub process_own_no_vote_msg : NoVoteMsg → Handler (Unit {0})
unfolding send_round
process_own_no_vote_msg m = do
  c ← gets (λ k. k.committee)
  lead ← expect (leader c (add64 m.round 1))
  send_round m.round lead (Core.PrimaryMessage.no_vote_msg m)

unfoldable pub store_entry : Digest → Bytes → Core → Core
store_entry d v k = record k { store = record (k.store) { entries = insert d v k.store.entries } }

-- The loop over the parents: all of the round before, their stake, and whether the leader is one.
unfoldable pub check_parents : Committee → Header → ℕ → Bool → List Certificate → Handler (ℕ × Bool)
check_parents c h weight has_leader [] = pure (weight, has_leader)
check_parents c h weight has_leader (x ∷ xs) = do
  try_ (ensure (add64 (round_of x) 1 == h.round) (malformed_header h.id))
  lead ← expect (leader c (sub64 h.round 1))
  check_parents c h (add32 weight (stake c (origin x))) (has_leader || lead == origin x) xs

-- Without the leader among the parents the header needs a timeout certificate, and if its author leads
-- its own round, a no-vote certificate too.
unfoldable pub check_leaderless : Committee → Header → Handler (Unit {0})
check_leaderless c h = do
  try_ (verify_timeout_cert c h.timeout_cert)
  lead ← expect (leader c h.round)
  if lead == h.author then try_ (verify_no_vote_cert c h.no_vote_cert) else pure tt

unfoldable pub validate_parents : Committee → Header → List Certificate → Handler (Unit {0})
validate_parents c h parents = do
  found ← check_parents c h 0 false parents
  try_ (ensure (leb (quorum_threshold c) found.0) (header_requires_quorum h.id))
  if found.1 then pure tt else check_leaderless c h

unfoldable pub note_processing : Header → Core → Core
note_processing h k = record k {
  processing =
      insert h.round (set_insert h.id (unwrap_or [] (get h.round k.processing))) k.processing;
}

-- Whether this is the first header of its author in its round.
abbrev pub may_vote : Header → Core → Bool
may_vote h k = not (contains (unwrap_or [] (get h.round k.last_voted)) h.author)

unfoldable pub note_voted : Header → Core → Core
note_voted h k = record k {
  last_voted =
      insert h.round (set_insert h.author (unwrap_or [] (get h.round k.last_voted))) k.last_voted;
}

module _ (p : Primitives) (b : Codec) where
  -- The vote goes to the author of the header, or is processed here if that is this primary.
  unfoldable pub cast_vote : (Vote → Handler (Unit {0})) → Header → Handler (Unit {0})
  unfolding send_round
  cast_vote process_vote h k =
      (if h.author == k.name
          then expect_ok (process_vote (new_vote p h k.name))
          else send_round h.round h.author (Core.PrimaryMessage.vote (new_vote p h k.name)))
        k

  unfoldable pub vote_once : (Vote → Handler (Unit {0})) → Header → Handler (Unit {0})
  unfolding note_voted
  vote_once process_vote h k =
      (if may_vote h k
          then (modify (note_voted h) >> cast_vote process_vote h)
          else modify (note_voted h))
        k

  -- With all parents at hand.
  unfoldable pub accept_header :
      (Vote → Handler (Unit {0})) → Header → List Certificate → Handler (Unit {0})
  unfolding store_entry
  accept_header process_vote h parents = do
    c ← gets (λ k. k.committee)
    validate_parents c h parents
    missing ← missing_payload h
    if missing
        then pure tt
        else do modify (store_entry h.id (b.serialize_header h)); vote_once process_vote h

  unfoldable pub process_header_with : (Vote → Handler (Unit {0})) → Header → Handler (Unit {0})
  unfolding note_processing
  process_header_with process_vote h = do
    emit (consensus_header h)
    modify (note_processing h)
    parents ← get_parents p b h
    if is_empty parents then pure tt else accept_header process_vote h parents

  abbrev pub is_processing : Header → Core → Bool
  is_processing h k = contains (unwrap_or [] (get h.round k.processing)) h.id

  -- With all ancestors at hand.
  unfoldable pub accept_certificate : Certificate → Handler (Unit {0})
  unfolding store_entry
  accept_certificate x = do
    modify (store_entry (certificate_digest p x) (b.serialize_certificate x))
    c ← gets (λ k. k.committee)
    a ← gets (λ k. unwrap_or new_certificates (get (round_of x) k.certificates_aggregators))
    let r = append_certificate x c a
    modify (λ k. record k {
      certificates_aggregators = insert (round_of x) r.1 k.certificates_aggregators;
    })
    elim r.0 [ none ↦ pure tt | some parents ↦ emit (proposer parents (round_of x)) ]
    emit (consensus x)

  unfoldable pub process_certificate_with :
      (Header → Handler (Unit {0})) → Certificate → Handler (Unit {0})
  process_certificate_with process_header x = do
    known ← gets (is_processing x.header)
    if known then pure tt else process_header x.header
    complete ← deliver_certificate p b x
    if complete then accept_certificate x else pure tt

  unfoldable pub process_vote_with : (Certificate → Handler (Unit {0})) → Vote → Handler (Unit {0})
  unfolding broadcast_round
  process_vote_with process_certificate v = do
    k ← gets (λ k. k)
    r ← expect (append_vote v k.committee k.current_header k.votes_aggregator)
    modify (λ k. record k { votes_aggregator = r.1 })
    cert ← try_ r.0
    elim cert [
      | none ↦ pure tt
      | some x ↦ do
        broadcast_round (round_of x) (Core.PrimaryMessage.certificate x)
        expect_ok (process_certificate x)
    ]

  -- The circle of calls, as often round as there is fuel.
  unfoldable pub process_vote_fuel : ℕ → Vote → Handler (Unit {0})
  process_vote_fuel zero v k = (out_of_fuel, k)
  process_vote_fuel (suc n) v k =
      process_vote_with (process_certificate_with (process_header_with (process_vote_fuel n))) v k

  -- The circle of calls goes round at most twice.
  unfoldable pub process_vote : Vote → Handler (Unit {0})
  process_vote = process_vote_fuel 2

  unfoldable pub process_header : Header → Handler (Unit {0})
  process_header = process_header_with process_vote

  unfoldable pub process_certificate : Certificate → Handler (Unit {0})
  process_certificate = process_certificate_with process_header

  unfoldable pub process_own_header : Header → Handler (Unit {0})
  unfolding broadcast_round
  process_own_header h = do
    modify (λ k. record k { current_header = h; votes_aggregator = new_votes })
    broadcast_round h.round (Core.PrimaryMessage.header h)
    process_header h

  -- The first message of a round starts an aggregator with this primary's own message in it.
  unfoldable pub start_no_votes : NoVoteMsg → Handler (Unit {0})
  start_no_votes m k =
      (if contains_key m.round k.no_vote_aggregators
          then pure tt
          else let (r, a) =
              append_no_vote (new_no_vote p m.round k.name) k.committee new_no_votes in
            do
              try_ r
              modify
                  (λ k. record k { no_vote_aggregators = insert m.round a k.no_vote_aggregators }))
        k

  unfoldable pub process_no_vote_msg : NoVoteMsg → Handler (Unit {0})
  process_no_vote_msg m = do
    start_no_votes m
    k ← gets (λ k. k)
    let r =
        append_no_vote m k.committee (unwrap_or new_no_votes (get m.round k.no_vote_aggregators))
    modify (λ k. record k { no_vote_aggregators = insert m.round r.1 k.no_vote_aggregators })
    cert ← try_ r.0
    elim cert [ none ↦ pure tt | some c ↦ emit (proposer_no_vote_cert c m.round) ]
