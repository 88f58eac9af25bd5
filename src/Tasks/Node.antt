-- ===== src/Tasks/Node.antt =====
-- The core of primary/src/core.rs with the garbage collector of primary/src/garbage_collector.rs.
use sailfish_test.Prelude.{◌≤◌, ◌≡◌, refl, subst, arith, some}
use sailfish_test.Crypto.{PublicKey, Primitives}
use sailfish_test.Config.{Committee}
use sailfish_test.Messages.{Round, Certificate}
use sailfish_test.Core.{Core, Codec, Store, spawn}
use sailfish_test.Core.Handlers.{note_voted, note_processing, store_entry}
use sailfish_test.Core.Circle.{IsKept}
use sailfish_test.Core.Dispatch.{dispatch-Sound}
use sailfish_test.Core.Loop.{Input, running, dispatch, step, clean_up}
use sailfish_test.Core.Voting.{
  Life, begins, steps, writes, advances, one_vote, times, settle-running,
}
use sailfish_test.Tasks.{GarbageCollector, collect, spawn_collector}

-- The life of a primary: messages for the core, certificates from the consensus for the garbage
-- collector, which sets the consensus round that the core reads, and writes to the store.
pub data NodeLife (p : Primitives) (b : Codec) (k0 : Core) (g0 : GarbageCollector)
    : Core → GarbageCollector → Type 0 where
  starts : NodeLife p b k0 g0 k0 g0
  handles :
      {k1 k2 : Core} {g : GarbageCollector} (i : Input)
      → NodeLife p b k0 g0 k1 g
      → step p b i k1 ≡ running k2
      → NodeLife p b k0 g0 k2 g
  stores :
      {k1 : Core} {g : GarbageCollector} (s : Store)
      → NodeLife p b k0 g0 k1 g
      → NodeLife p b k0 g0 (record k1 { store = s }) g
  collects :
      {k1 : Core} {g : GarbageCollector} (x : Certificate)
      → NodeLife p b k0 g0 k1 g
      → NodeLife p b k0 g0
          (record k1 { consensus_round = (collect x g).consensus_round })
          (collect x g)

abbrev IsAt : Round → Core → Type 0
IsAt r k = k.consensus_round ≡ r

IsAt-IsKept : (r : Round) → IsKept (IsAt r)
unfolding note_voted note_processing store_entry
IsAt-IsKept r = record {
  frame = record {
    sends = λ k o e q. q;
    casts = λ k h v to may er ea q. q;
    handles = λ k r l q. q;
    stores = λ k d v q. q;
    votes = λ k h q. q;
    collects = λ k m q. q;
    counts = λ k a q. q;
  };
  notes = λ k h q. q;
  proposes = λ k h q. q;
  times_out = λ k m q. q;
  abstains = λ k m q. q;
}

clean_up-IsAt : (r : Round) (k : Core) → IsAt r k → IsAt r (clean_up k)
unfolding clean_up
clean_up-IsAt r k q = ground (arith, q)

module _ (p : Primitives) (b : Codec) where
  step-IsAt :
      (i : Input) (k k' : Core) (r : Round) → IsAt r k → step p b i k ≡ running k' → IsAt r k'
  unfolding step
  step-IsAt i k k' r q e =
      let (t, qt, et) =
        settle-running (IsAt r) (dispatch p b i k) k'
          (dispatch-Sound (IsAt r) (IsAt-IsKept r) p b i k q) e in
      subst (IsAt r) et (clean_up-IsAt r t qt)

  record IsLinked (k0 k : Core) (g : GarbageCollector) : Type 0 where
    life : Life p b k0 k
    shared : k.consensus_round ≡ g.consensus_round
    same : g.consensus_round ≡ g.last_committed_round

  collect-grows :
      (x : Certificate) (g : GarbageCollector)
      → g.consensus_round ≡ g.last_committed_round
      → ((collect x g).consensus_round ≡ (collect x g).last_committed_round)
        × (g.consensus_round ≤ (collect x g).consensus_round)
  unfolding collect
  collect-grows x g e = ground (arith, e)

  NodeLife-IsLinked :
      {k0 : Core} {g0 : GarbageCollector} {k : Core} {g : GarbageCollector}
      → IsLinked k0 k0 g0
      → NodeLife p b k0 g0 k g
      → IsLinked k0 k g
  NodeLife-IsLinked l starts = l
  NodeLife-IsLinked l (handles {k1 = k1} {k2 = k2} {g = g} i n e) =
      let q = NodeLife-IsLinked l n in
      record {
        life = steps i q.life e;
        shared = step-IsAt i k1 k2 g.consensus_round q.shared e;
        same = q.same;
      }
  NodeLife-IsLinked l (stores s n) =
      let q = NodeLife-IsLinked l n in
      record { life = writes s q.life; shared = q.shared; same = q.same }
  NodeLife-IsLinked l (collects {k1 = k1} {g = g} x n) =
      let q = NodeLife-IsLinked l n in
      let (same, le) = collect-grows x g q.same in
      record {
        life = advances (collect x g).consensus_round q.life (omega (arith, q.shared, le));
        shared = refl;
        same = same;
      }

  -- With the garbage collector of the primary, that sets the consensus round from the certificates the
  -- consensus outputs, in whatever order: in its whole life a primary sends at most one vote for the
  -- headers of one author in one round, for every round that is not collected.
  pub node_votes_once :
      (name : PublicKey) (c : Committee) (store : Store) (gc_depth : Round)
      (g0 g : GarbageCollector) (k : Core) (r : Round) (a : PublicKey)
      → spawn_collector name c ≡ some g0
      → NodeLife p b (spawn name c store gc_depth) g0 k g
      → k.gc_round ≤ r
      → times r a k.sent ≤ 1
  unfolding spawn spawn_collector
  node_votes_once name c store gc_depth g0 g k r a e n recent =
      let started : (0 ≡ g0.consensus_round) × (g0.consensus_round ≡ g0.last_committed_round) =
        ground arith in
      let q =
        NodeLife-IsLinked (record { life = begins; shared = started.0; same = started.1 }) n in
      one_vote p b name c store gc_depth k r a q.life recent
