-- ===== src/Core/Dispatch.antt =====
-- The handlers of primary/src/core.rs and its dispatch of what comes in, for a property that all of
-- them keep.
use sailfish_test.Prelude.{refl, contains_key, Option-cases, inl, inr}
use sailfish_test.Crypto.{Primitives}
use sailfish_test.Messages.{Header, Timeout, NoVoteMsg, Vote, Certificate}
use sailfish_test.Messages
use sailfish_test.Core.{
  Codec, Core, Handler, ◌>>◌, try_, PrimaryMessage, header, timeout, no_vote_msg, vote, certificate,
  certificates_request,
}
use sailfish_test.Core.Handlers.{
  process_vote, process_header, process_certificate, process_own_header, process_timeout,
  process_own_timeout, process_own_no_vote_msg, process_no_vote_msg, start_no_votes,
}
use sailfish_test.Core.Sound.{
  Sound, Sound-bind, Sound-done, Sound-panicked, Sound-try, Sound-expect, Sound-if, Sound-mono,
}
use sailfish_test.Core.Frame.{send-Sound, process_header_with-Sound, process_certificate_with-Sound}
use sailfish_test.Core.Loop.{Input, receive, dispatch}
use sailfish_test.Core.Circle.{IsKept, vote-Proposing}

module _ (Q : Core → Type 0) (kept : IsKept Q) (p : Primitives) (b : Codec) where
  pub process_vote-Sound : (v : Vote) (k : Core) → Q k → Sound Q (process_vote p b v k)
  process_vote-Sound v k q =
      Sound-mono _ Q _ (λ k1 r. r.0) (vote-Proposing Q kept p b k.current_header v k (q, refl))

  process_header-Sound : (h : Header) (k : Core) → Q k → Sound Q (process_header p b h k)
  unfolding process_header
  process_header-Sound h k q =
      process_header_with-Sound Q kept.frame p b (process_vote p b) process_vote-Sound h k
        (kept.notes _ h (kept.frame.sends k _ refl q))

  process_certificate-Sound :
      (x : Certificate) (k : Core) → Q k → Sound Q (process_certificate p b x k)
  unfolding process_certificate
  process_certificate-Sound x k q =
      process_certificate_with-Sound Q kept.frame p b (process_header p b) x k q
        (λ unknown. process_header-Sound x.header k q)

  process_own_header-Sound : (h : Header) (k : Core) → Q k → Sound Q (process_own_header p b h k)
  unfolding process_own_header
  process_own_header-Sound h k q =
      process_header-Sound h _
        (kept.frame.handles _ h.round _ (kept.frame.sends _ _ refl (kept.proposes k h q)))

  process_timeout-Sound : (t : Timeout) (k : Core) → Q k → Sound Q (process_timeout t k)
  unfolding process_timeout
  process_timeout-Sound t k q =
      Sound-bind Q _ _ (Sound-try Q _ _ (kept.times_out k _ q)) (λ cert e q'.
        elim (Option-cases cert) [
          | inl none_yet ↦ rw none_yet (Sound-done Q _ _ q')
          | inr (c, got) ↦ rw got (Sound-done Q _ _ (kept.frame.sends _ _ refl q'))
        ])

  process_own_timeout-Sound : (t : Timeout) (k : Core) → Q k → Sound Q (process_own_timeout t k)
  unfolding process_own_timeout
  process_own_timeout-Sound t k q =
      process_timeout-Sound t _ (kept.frame.handles _ t.round _ (kept.frame.sends k _ refl q))

  process_own_no_vote_msg-Sound :
      (m : NoVoteMsg) (k : Core) → Q k → Sound Q (process_own_no_vote_msg m k)
  unfolding process_own_no_vote_msg
  process_own_no_vote_msg-Sound m k q =
      Sound-bind Q _ _ (Sound-expect Q _ _ q)
        (λ lead e q'. send-Sound Q kept.frame m.round lead _ _ (λ a. refl) q')

  start_no_votes-Sound : (m : NoVoteMsg) (k : Core) → Q k → Sound Q (start_no_votes p b m k)
  unfolding start_no_votes
  start_no_votes-Sound m k q =
      Sound-if Q (contains_key m.round k.no_vote_aggregators) _ _ k (λ _. Sound-done Q _ _ q)
        (λ _.
          Sound-bind Q _ _ (Sound-try Q _ _ q) (λ _ e q'. Sound-done Q _ _ (kept.abstains _ _ q')))

  process_no_vote_msg-Sound :
      (m : NoVoteMsg) (k : Core) → Q k → Sound Q (process_no_vote_msg p b m k)
  unfolding process_no_vote_msg
  process_no_vote_msg-Sound m k q = Sound-bind Q _ _ (start_no_votes-Sound m k q) (λ _ e q1.
      Sound-bind Q _ _ (Sound-try Q _ _ (kept.abstains _ _ q1)) (λ cert e1 q2.
        elim (Option-cases cert) [
          | inl none_yet ↦ rw none_yet (Sound-done Q _ _ q2)
          | inr (c, got) ↦ rw got (Sound-done Q _ _ (kept.frame.sends _ _ refl q2))
        ]))

  checked-Sound :
      (r : Messages.DagResult (Unit {0})) (m : Handler (Unit {0})) (k : Core)
      → ((k1 : Core) → Q k1 → Sound Q (m k1))
      → Q k
      → Sound Q ((try_ r >> m) k)
  checked-Sound r m k goes q = Sound-bind Q _ _ (Sound-try Q r k q) (λ _ e q'. goes _ q')

  receive-Sound : (m : PrimaryMessage) (k : Core) → Q k → Sound Q (receive p b m k)
  unfolding receive
  receive-Sound (header h) k q = checked-Sound _ (process_header p b h) k (process_header-Sound h) q
  receive-Sound (timeout t) k q = checked-Sound _ (process_timeout t) k (process_timeout-Sound t) q
  receive-Sound (no_vote_msg m) k q =
      checked-Sound _ (process_no_vote_msg p b m) k (process_no_vote_msg-Sound m) q
  receive-Sound (vote v) k q = checked-Sound _ (process_vote p b v) k (process_vote-Sound v) q
  receive-Sound (certificate x) k q =
      checked-Sound _ (process_certificate p b x) k (process_certificate-Sound x) q
  receive-Sound (certificates_request ds n) k q = Sound-panicked Q k

  -- Whatever comes in, the handlers end within their fuel and keep the property.
  pub dispatch-Sound : (i : Input) (k : Core) → Q k → Sound Q (dispatch p b i k)
  unfolding dispatch
  dispatch-Sound (Input.from_primaries m) k q = receive-Sound m k q
  dispatch-Sound (Input.from_header_waiter h) k q = process_header-Sound h k q
  dispatch-Sound (Input.from_certificate_waiter x) k q = process_certificate-Sound x k q
  dispatch-Sound (Input.from_proposer h) k q = process_own_header-Sound h k q
  dispatch-Sound (Input.own_timeout t) k q = process_own_timeout-Sound t k q
  dispatch-Sound (Input.own_no_vote_msg m) k q = process_own_no_vote_msg-Sound m k q
