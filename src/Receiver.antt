-- ===== src/Receiver.antt =====
-- network/src/receiver.rs: what becomes of the frames that arrive on one connection.
use sailfish_test.Prelude.{ℕ, ◌≡◌, ap, List, [], ◌∷◌, Option, none, some}

abbrev pub Bytes : Type 0
Bytes = List ℕ

-- What `dispatch` returns: `Ok(())` or an error.
pub data Dispatched : Type 0 where
  handled failed : Dispatched

-- The runner of a connection: `none` is a frame that cannot be read. An error of the handler ends the
-- connection. The state is that of the channels that the handler sends to.
unfoldable pub spawn_runner :
    {S : Type 0} → (Bytes → S → Dispatched × S) → List (Option Bytes) → S → S
spawn_runner dispatch [] s = s
spawn_runner dispatch (none ∷ frames) s = s
spawn_runner dispatch (some message ∷ frames) s =
    let (result, s') = dispatch message s in
    let rest = spawn_runner dispatch frames s' in elim result [ handled ↦ rest | failed ↦ s' ]

-- A message that the handler accepts, and the rest.
pub spawn_runner-handled :
    {S : Type 0} (dispatch : Bytes → S → Dispatched × S) (message : Bytes)
    (frames : List (Option Bytes)) (s s' : S)
    → dispatch message s ≡ (handled, s')
    → spawn_runner dispatch (some message ∷ frames) s ≡ spawn_runner dispatch frames s'
unfolding spawn_runner
spawn_runner-handled dispatch message frames s s' e =
    ap {B = _} (λ r. elim r.0 [ handled ↦ spawn_runner dispatch frames r.1 | failed ↦ r.1 ]) e
