-- ===== src/HeaderWaiter/Retries.antt =====
-- The retries of primary/src/header_waiter.rs.
use sailfish_test.Prelude.{ℕ, ◌+◌, ◌<◌, ◌≡◌, List, Bool, true, false, some, get, All}
use sailfish_test.Crypto.{Digest}
use sailfish_test.Messages.{Round}
use sailfish_test.HeaderWaiter.{HeaderWaiter, Event, arrived}

abbrev is_arrived : Event → Bool
is_arrived (arrived i) = true
is_arrived _ = false

-- No header goes back to the core, and the round is not collected.
abbrev pub IsQuiet : Round → Round → List (Round × Event) → Type 0
IsQuiet gc_depth r es = All (λ t. (is_arrived t.1 ≡ false) × (t.0 < gc_depth + r)) es

module _ (d : Digest) (r : Round) (t delay gc_depth : ℕ) where
  -- The certificate was requested at the time `t`, for a header of the round `r`.
  pub record IsAsked (s : HeaderWaiter) : Type 0 where
    pub asked : get d s.parent_requests ≡ some (r, t)
    pub delays : s.sync_retry_delay ≡ delay
    pub depth : s.gc_depth ≡ gc_depth
