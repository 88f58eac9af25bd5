-- ===== src/Core/Sound.antt =====
-- Postconditions of the handlers of primary/src/core.rs, and the rules for the handlers that others
-- are made of.
use sailfish_test.Prelude.{◌≡◌, refl, Bool, true, false, Option, none, some, if◌then◌else◌}
use sailfish_test.Messages.{
  certificate_digest, DagError, DagResult, Round, Header, Vote, Certificate, origin, round_of,
  new_vote,
}
use sailfish_test.Messages
use sailfish_test.Core.{
  Core, Outcome, done, failed, panicked, out_of_fuel, Handler, try_, expect, expect_ok, expected,
}

-- The handler does not run out of fuel, and where it ends well or fails, the state is as said.
unfoldable pub Sound : {A : Type 0} → (Core → Type 0) → Outcome A × Core → Type 0
Sound Q (done a, k) = Q k
Sound Q (failed e, k) = Q k
Sound Q (panicked, k) = Unit {0}
Sound Q (out_of_fuel, k) = ⊥

-- A chain of handlers keeps what each of them keeps: `r` is how the first ends, and `next` what
-- follows when it ends well.
pub Sound-bind :
    {A B : Type 0} (Q : Core → Type 0) (r : Outcome A × Core) (next : A → Outcome B × Core)
    → Sound Q r
    → ((a : A) → r.0 ≡ done a → Q r.1 → Sound Q (next a))
    → Sound {A = B} Q (elim r.0 [
      | done a ↦ next a
      | failed e ↦ (failed e, r.1)
      | panicked ↦ (panicked, r.1)
      | out_of_fuel ↦ (out_of_fuel, r.1)
    ])
unfolding Sound
Sound-bind Q (done a, k') next s go = go a refl s
Sound-bind Q (failed e, k') next s go = s
Sound-bind Q (panicked, k') next s go = tt
Sound-bind Q (out_of_fuel, k') next s go = absurd s

pub Sound-mono :
    {A : Type 0} (Q R : Core → Type 0) (r : Outcome A × Core)
    → ((k : Core) → Q k → R k)
    → Sound Q r
    → Sound R r
unfolding Sound
Sound-mono Q R (done a, k) w s = w k s
Sound-mono Q R (failed e, k) w s = w k s
Sound-mono Q R (panicked, k) w s = tt
Sound-mono Q R (out_of_fuel, k) w s = absurd s

expected-Sound :
    {A : Type 0} (Q : Core → Type 0) (r : Outcome A × Core)
    → Sound Q r
    → Sound Q (expected r.0, r.1)
unfolding Sound
expected-Sound Q (done a, k) s = s
expected-Sound Q (failed e, k) s = tt
expected-Sound Q (panicked, k) s = tt
expected-Sound Q (out_of_fuel, k) s = absurd s

pub Sound-expected :
    {A : Type 0} (Q : Core → Type 0) (m : Handler A) (k : Core)
    → Sound Q (m k)
    → Sound Q (expect_ok m k)
unfolding expect_ok
Sound-expected Q m k s = expected-Sound Q (m k) s

pub Sound-try :
    {A : Type 0} (Q : Core → Type 0) (r : DagResult A) (k : Core) → Q k → Sound Q (try_ r k)
unfolding Sound try_
Sound-try Q (Messages.DagResult.ok a) k q = q
Sound-try Q (Messages.DagResult.err e) k q = q

pub Sound-expect :
    {A : Type 0} (Q : Core → Type 0) (o : Option A) (k : Core) → Q k → Sound Q (expect o k)
unfolding Sound expect
Sound-expect Q none k q = tt
Sound-expect Q (some a) k q = q

pub expect-done :
    {A : Type 0} (o : Option A) (k : Core) (a : A) → (expect o k).0 ≡ done a → o ≡ some a
unfolding expect
expect-done none k a h = cc
expect-done (some x) k a h = cc

pub expect-state : {A : Type 0} (o : Option A) (k : Core) → (expect o k).1 ≡ k
unfolding expect
expect-state none k = refl
expect-state (some x) k = refl

pub try-done :
    {A : Type 0} (r : DagResult A) (k : Core) (a : A)
    → (try_ r k).0 ≡ done a
    → r ≡ Messages.DagResult.ok a
unfolding try_
try-done (Messages.DagResult.ok x) k a h = cc
try-done (Messages.DagResult.err x) k a h = cc

pub Sound-if :
    {A : Type 0} (Q : Core → Type 0) (b : Bool) (m n : Handler A) (k : Core)
    → (b ≡ true → Sound Q (m k))
    → (b ≡ false → Sound Q (n k))
    → Sound Q ((if b then m else n) k)
Sound-if Q true m n k s t = s refl
Sound-if Q false m n k s t = t refl

pub Sound-panicked : (Q : Core → Type 0) (k : Core) → Sound {A = Unit {0}} Q (panicked, k)
unfolding Sound
Sound-panicked Q k = tt

pub Sound-done : {A : Type 0} (Q : Core → Type 0) (a : A) (k : Core) → Q k → Sound Q (done a, k)
unfolding Sound
Sound-done Q a k q = q
