-- ===== src/Proposer/Timeouts.antt =====
-- The timeouts of primary/src/proposer.rs.
use sailfish_test.Prelude.{
  ℕ, ◌≡◌, refl, ◌∙◌, List, [], ◌∷◌, ◌++◌, Bool, true, false, not, ◌&&◌, some, arith,
}
use sailfish_test.Crypto.{PublicKey, Primitives}
use sailfish_test.Config.{Committee}
use sailfish_test.Proposer.{
  Proposer, Event, Output, header, timeout, no_vote, spawn, receive, receive_parents,
  receive_digest, receive_timeout_cert, receive_no_vote_cert, update_leader, run, make_timeout_msg,
  make_no_vote_msg,
}
use sailfish_test.Proposer.Rule.{Rule, kept-run}

-- Whether a timeout is the last of the timeouts and headers.
abbrev waits_after : Bool → List Output → Bool
waits_after w [] = w
waits_after w (header h ∷ os) = waits_after false os
waits_after w (timeout t ∷ os) = waits_after true os
waits_after w (no_vote m ∷ os) = waits_after w os

-- A header goes out between any two timeouts; `w` tells of a timeout before.
abbrev pub is_spaced : Bool → List Output → Bool
is_spaced w [] = true
is_spaced w (header h ∷ os) = is_spaced false os
is_spaced w (timeout t ∷ os) = not w && is_spaced true os
is_spaced w (no_vote m ∷ os) = is_spaced w os

is_spaced-append :
    (w : Bool) (os us : List Output)
    → is_spaced w (os ++ us) ≡ (is_spaced w os && is_spaced (waits_after w os) us)
is_spaced-append w [] us = refl
is_spaced-append w (header h ∷ os) us = is_spaced-append false os us
is_spaced-append w (timeout t ∷ os) us = ground (arith, is_spaced-append true os us)
is_spaced-append w (no_vote m ∷ os) us = is_spaced-append w os us

waits_after-append :
    (w : Bool) (os us : List Output) → waits_after w (os ++ us) ≡ waits_after (waits_after w os) us
waits_after-append w [] us = refl
waits_after-append w (header h ∷ os) us = waits_after-append false os us
waits_after-append w (timeout t ∷ os) us = waits_after-append true os us
waits_after-append w (no_vote m ∷ os) us = waits_after-append w os us

spaced-snoc :
    (o : Output) (os : List Output)
    → is_spaced false os ≡ true
    → is_spaced (waits_after false os) (o ∷ []) ≡ true
    → is_spaced false (os ++ o ∷ []) ≡ true
spaced-snoc o os h k = ground (arith, is_spaced-append false os (o ∷ []))

record IsSpaced (s : Proposer) : Type 0 where
  spaced : is_spaced false s.sent ≡ true
  waits : waits_after false s.sent ≡ s.timeout_sent

module _ (p : Primitives) where
  IsSpaced-Rule : Rule p IsSpaced
  unfolding make_timeout_msg make_no_vote_msg
  IsSpaced-Rule = record {
    timeouts = λ s h e. record {
      spaced = spaced-snoc (timeout _) s.sent h.spaced (ground (arith, h.waits, e));
      waits = waits_after-append false s.sent _;
    };
    no_votes = λ lead s h l n. record {
      spaced = spaced-snoc (no_vote _) s.sent h.spaced refl;
      waits = waits_after-append false s.sent _ ∙ h.waits;
    };
    headers = λ now lead s h l r. record {
      spaced = spaced-snoc (header _) s.sent h.spaced refl;
      waits = waits_after-append false s.sent _;
    };
  }

  receive-IsSpaced :
      (e : Event) (s s' : Proposer) → IsSpaced s → receive e s ≡ some s' → IsSpaced s'
  unfolding receive update_leader receive_parents receive_digest receive_timeout_cert
      receive_no_vote_cert
  receive-IsSpaced e s s' h r = ground arith

  -- Between two timeouts that a proposer sends there is always a header.
  pub timeouts_spaced :
      (name : PublicKey) (c : Committee) (header_size max_header_delay now : ℕ)
      (ts : List (ℕ × Event)) (s : Proposer)
      → run p ts (spawn name c header_size max_header_delay now) ≡ some s
      → is_spaced false s.sent ≡ true
  unfolding spawn
  timeouts_spaced name c n d now ts s e =
      (kept-run p IsSpaced IsSpaced-Rule receive-IsSpaced ts _ s
        (record { spaced = refl; waits = refl }) e).spaced
