-- ===== src/Core/Cleaning.antt =====
-- The cleanup of primary/src/core.rs after each message, and what it forgets.
use sailfish_test.Prelude.{
  ◌+◌, ◌-◌, ◌<◌, ◌≡◌, ap, [], true, arith, leb, lt→ltb, All, get, get-retain, retain-All, unwrap_or,
  contains, not,
}
use sailfish_test.Crypto.{Primitives}
use sailfish_test.Messages.{ok, Round, Header}
use sailfish_test.Core.{Core}
use sailfish_test.Core.Handlers.{may_vote}
use sailfish_test.Core.Sanitize.{sanitize_header}
use sailfish_test.Core.Loop.{clean_up}

sanitize_header-round :
    (p : Primitives) (k : Core) (h : Header)
    → sanitize_header p k h ≡ ok tt
    → leb k.gc_round h.round ≡ true
unfolding sanitize_header
sanitize_header-round p k h e = ground arith

-- No round of these maps is below the collected round.
pub record IsCollected (k : Core) : Type 0 where
  pub last_voted : All (λ e. leb k.gc_round e.0 ≡ true) k.last_voted
  pub processing : All (λ e. leb k.gc_round e.0 ≡ true) k.processing
  pub certificates : All (λ e. leb k.gc_round e.0 ≡ true) k.certificates_aggregators
  pub handlers : All (λ e. leb k.gc_round e.0 ≡ true) k.cancel_handlers

clean_up-IsCollected : (k : Core) → k.gc_depth < k.consensus_round → IsCollected (clean_up k)
unfolding clean_up
clean_up-IsCollected k h = rw (lt→ltb k.gc_depth k.consensus_round h) (record {
  last_voted = retain-All _ k.last_voted;
  processing = retain-All _ k.processing;
  certificates = retain-All _ k.certificates_aggregators;
  handlers = retain-All _ k.cancel_handlers;
})

clean_up-last_voted :
    (k : Core) (r : Round)
    → k.gc_depth < k.consensus_round
    → leb (clean_up k).gc_round r ≡ true
    → ((clean_up k).gc_round + k.gc_depth ≡ k.consensus_round)
      × (get r (clean_up k).last_voted ≡ get r k.last_voted)
unfolding clean_up
clean_up-last_voted k r h =
    rw (lt→ltb k.gc_depth k.consensus_round h) (λ e.
      (omega arith, get-retain (λ n. leb (k.consensus_round - k.gc_depth) n) r k.last_voted e))

-- Once the consensus is past the garbage collection depth, the cleanup sets the collected round to
-- the consensus round less the depth and leaves no round below it in four of the maps. For a header
-- that the checks on arrival accept after the cleanup, the answer to whether it may be voted for is
-- what it was before the cleanup.
pub clean_up-may_vote :
    (p : Primitives) (k : Core) (h : Header)
    → k.gc_depth < k.consensus_round
    → sanitize_header p (clean_up k) h ≡ ok tt
    → ((clean_up k).gc_round + k.gc_depth ≡ k.consensus_round)
      × IsCollected (clean_up k)
      × (may_vote h (clean_up k) ≡ may_vote h k)
clean_up-may_vote p k h past accepted =
    let (depth, voted) =
      clean_up-last_voted k h.round past (sanitize_header-round p (clean_up k) h accepted) in
    (depth, clean_up-IsCollected k past, ap (λ o. not (contains (unwrap_or [] o) h.author)) voted)
