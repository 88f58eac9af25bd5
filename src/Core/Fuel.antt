-- ===== src/Core/Fuel.antt =====
-- How the steps of the main loop of primary/src/core.rs end.
use sailfish_test.Prelude.{◌≡◌, ◌≢◌, ◌⊎◌, refl, arith, inl, inr}
use sailfish_test.Crypto.{Primitives}
use sailfish_test.Core.{Codec, Core, Outcome, done, failed, panicked, out_of_fuel}
use sailfish_test.Core.Sound.{Sound}
use sailfish_test.Core.Loop.{Input, Step, killed, running, stopped, dispatch, settle, step}
use sailfish_test.Core.Circle.{IsKept}
use sailfish_test.Core.Dispatch.{dispatch-Sound}

-- Nothing is asked of the state.
abbrev Anything : Core → Type 0
Anything k = Unit {0}

Anything-IsKept : IsKept Anything
Anything-IsKept = record {
  frame = record {
    sends = λ k o e q. tt;
    casts = λ k h v to may r a q. tt;
    handles = λ k r l q. tt;
    stores = λ k d v q. tt;
    votes = λ k g q. tt;
    collects = λ k m q. tt;
    counts = λ k a q. tt;
  };
  notes = λ k h q. tt;
  proposes = λ k h q. tt;
  times_out = λ k m q. tt;
  abstains = λ k m q. tt;
}

module _ (p : Primitives) (b : Codec) where
  settle-stopped : (r : Outcome (Unit {0}) × Core) → Sound Anything r → settle r.0 r.1 ≢ stopped
  unfolding settle Sound
  settle-stopped (done a, k) s = λ h. cc
  settle-stopped (failed e, k) s = λ h. ground arith
  settle-stopped (panicked, k) s = λ h. cc
  settle-stopped (out_of_fuel, k) s = absurd s

  going_or_killed : (r : Step) → r ≢ stopped → (r ≡ killed) ⊎ ((k : Core) × (r ≡ running k))
  going_or_killed (running k) h = inr (k, refl)
  going_or_killed killed h = inl refl
  going_or_killed stopped h = absurd (h refl)

  -- Whatever the state is and whatever comes in, a step of the main loop kills the node or leaves
  -- it running with a new state: no handler runs out of the fuel that the model gives to the calls
  -- that go round in a circle.
  pub step_ends :
      (i : Input) (k : Core) → (step p b i k ≡ killed) ⊎ ((k' : Core) × (step p b i k ≡ running k'))
  unfolding step
  step_ends i k =
      going_or_killed _
        (settle-stopped (dispatch p b i k) (dispatch-Sound Anything Anything-IsKept p b i k tt))
