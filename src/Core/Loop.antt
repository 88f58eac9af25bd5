-- ===== src/Core/Loop.antt =====
-- The main loop of primary/src/core.rs: one message, its handler, and the cleanup.
use sailfish_test.Prelude.{◌-◌, if◌then◌else◌, ltb, leb, retain}
use sailfish_test.Crypto.{Primitives}
use sailfish_test.Messages.{store_error, Round, Header, Timeout, NoVoteMsg, Certificate}
use sailfish_test.Core.{
  Codec, Core, Handler, Outcome, done, failed, panicked, out_of_fuel, ◌>>◌, try_, PrimaryMessage,
  header, timeout, no_vote_msg, vote, certificate, certificates_request,
}
use sailfish_test.Core.Handlers.{
  process_header, process_timeout, process_no_vote_msg, process_vote, process_certificate,
  process_own_header, process_own_timeout, process_own_no_vote_msg,
}
use sailfish_test.Core.Sanitize.{
  sanitize_header, sanitize_timeout, sanitize_no_vote_msg, sanitize_vote, sanitize_certificate,
}

-- The channels that the loop selects from.
pub data Input : Type 0 where
  from_primaries : PrimaryMessage → Input
  from_header_waiter : Header → Input
  from_certificate_waiter : Certificate → Input
  from_proposer : Header → Input
  own_timeout : Timeout → Input
  own_no_vote_msg : NoVoteMsg → Input

-- A step of the loop, or the end of the process. `stopped` is a limit of the model.
pub data Step : Type 0 where
  running : Core → Step
  killed stopped : Step

module _ (p : Primitives) (b : Codec) where
  -- A message is checked, then processed.
  unfoldable pub receive : PrimaryMessage → Handler (Unit {0})
  receive (header h) k = (try_ (sanitize_header p k h) >> process_header p b h) k
  receive (timeout t) k = (try_ (sanitize_timeout p k t) >> process_timeout t) k
  receive (no_vote_msg m) k = (try_ (sanitize_no_vote_msg p k m) >> process_no_vote_msg p b m) k
  receive (vote v) k = (try_ (sanitize_vote p k v) >> process_vote p b v) k
  receive (certificate x) k = (try_ (sanitize_certificate p k x) >> process_certificate p b x) k
  receive (certificates_request _ _) k = (panicked, k)

  unfoldable pub dispatch : Input → Handler (Unit {0})
  dispatch (from_primaries m) = receive m
  dispatch (from_header_waiter h) = process_header p b h
  dispatch (from_certificate_waiter x) = process_certificate p b x
  dispatch (from_proposer h) = process_own_header p b h
  dispatch (own_timeout t) = process_own_timeout t
  dispatch (own_no_vote_msg m) = process_own_no_vote_msg m

-- What is older than `gc_round` goes, from four of the maps.
abbrev collect_garbage : Round → Core → Core
collect_garbage gc_round k = record k {
  last_voted = retain (λ e. leb gc_round e.0) k.last_voted;
  processing = retain (λ e. leb gc_round e.0) k.processing;
  certificates_aggregators = retain (λ e. leb gc_round e.0) k.certificates_aggregators;
  cancel_handlers = retain (λ e. leb gc_round e.0) k.cancel_handlers;
  gc_round = gc_round;
}

unfoldable pub clean_up : Core → Core
clean_up k =
    if ltb k.gc_depth k.consensus_round
    then collect_garbage (k.consensus_round - k.gc_depth) k
    else k

-- A storage error kills the node; any other error is logged.
unfoldable pub settle : Outcome (Unit {0}) → Core → Step
settle (done _) k = running (clean_up k)
settle (failed store_error) k = killed
settle (failed _) k = running (clean_up k)
settle panicked k = killed
settle out_of_fuel k = stopped

module _ (p : Primitives) (b : Codec) where
  unfoldable pub step : Input → Core → Step
  step i k = let (r, k') = dispatch p b i k in settle r k'
