-- ===== src/Examples/WaiterCases.antt =====
-- The header waiter of primary/src/header_waiter.rs with four authorities.
use sailfish_test.Prelude.{◌≡◌, refl, List, [], ◌∷◌, some, unwrap_or}
use sailfish_test.Config.{primary}
use sailfish_test.Messages.{Round, Header}
use sailfish_test.HeaderWaiter.{
  HeaderWaiter, Event, parents_missing, timer, spawn, run, step, sync_parents, request_parents,
  add_waiter, clean_up, retry,
}
use sailfish_test.HeaderWaiter.Pending.{IsPaired, run-IsPaired}
use sailfish_test.Examples.Fixtures.{committee, header_of}

abbrev idle : HeaderWaiter
idle = spawn 1 committee 50 5 2

-- A header of authority 2 that lacks two parents.
abbrev orphan : Header
orphan = header_of 2 1 40 (12 ∷ 13 ∷ [])

abbrev asked : List (Round × Event)
asked = (0, parents_missing 10 (12 ∷ 13 ∷ []) orphan) ∷ []

abbrev waits : HeaderWaiter
waits = unwrap_or idle (run asked idle)

abbrev waits_longer : HeaderWaiter
waits_longer = unwrap_or idle (run ((3, timer 12) ∷ []) waits)

ran : (run asked idle ≡ some waits) × (run ((3, timer 12) ∷ []) waits ≡ some waits_longer)
unfolding spawn run step sync_parents request_parents add_waiter clean_up primary retry
ran = (refl, refl)

run-IsPaired_example : IsPaired waits
run-IsPaired_example = run-IsPaired 1 committee 50 5 2 asked waits ran.0

asks : sync_parents 10 (12 ∷ 13 ∷ []) orphan idle ≡ some waits
unfolding spawn run step sync_parents request_parents add_waiter clean_up primary
asks = refl
