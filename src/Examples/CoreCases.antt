-- ===== src/Examples/CoreCases.antt =====
-- A core of primary/src/core.rs with four authorities.
use sailfish_test.Prelude.{
  ◌+◌, ◌≡◌, ◌⊎◌, refl, [], ◌∷◌, none, some, arith, false, if◌then◌else◌, be_bytes, le_bytes,
}
use sailfish_test.Crypto.{to_vec, verify}
use sailfish_test.Config.{stake, worker}
use sailfish_test.Messages.{header_digest, payload_bytes, parents_bytes, new_header}
use sailfish_test.Messages.Checks.{verify_header, check_workers}
use sailfish_test.Core.{Codec, Store, Core, spawn}
use sailfish_test.Core.Handlers.{may_vote}
use sailfish_test.Core.Sanitize.{sanitize_header}
use sailfish_test.Core.Loop.{from_primaries, killed, running, clean_up, step}
use sailfish_test.Core.Cleaning.{IsCollected, clean_up-may_vote}
use sailfish_test.Core.Fuel.{step_ends}
use sailfish_test.Core.Sound.{Sound}
use sailfish_test.Core.Forwarding.{IsSentFirst, process_header-forwards}
use sailfish_test.Core.{consensus_header}
use sailfish_test.Core.Handlers.{process_header}
use sailfish_test.Prelude.{◌++◌}
use sailfish_test.Core
use sailfish_test.Examples.Fixtures.{committee, primitives, certificate_of, starts_with}
use sailfish_test.Examples.MessageCases.{own_header}

-- One certificate can be read back.
abbrev pub codec : Codec
codec = record {
  serialize_header = λ h. to_vec h.id;
  serialize_certificate = λ x. to_vec x.header.id;
  deserialize_certificate =
      λ bytes. if starts_with bytes (to_vec 12) then some (certificate_of 2 1 12 []) else none;
}

abbrev pub empty_store : Store
empty_store = record { entries = []; batches = []; broken = false }

abbrev pub node : Core
node = spawn 1 committee empty_store 50

step_ends_example :
    (step primitives codec (from_primaries (Core.PrimaryMessage.header own_header)) node ≡ killed)
    ⊎ ((k' : Core) × (step primitives codec
            (from_primaries (Core.PrimaryMessage.header own_header))
            node
          ≡ running k'))
step_ends_example =
    step_ends primitives codec (from_primaries (Core.PrimaryMessage.header own_header)) node

-- The consensus is at round 51, and a vote in round 0 and one in round 1 are remembered.
abbrev late_node : Core
late_node = record node { consensus_round = 51; last_voted = (0, 2 ∷ []) ∷ (1, 1 ∷ []) ∷ [] }

clean_up-may_vote_example :
    ((clean_up late_node).gc_round + 50 ≡ 51)
    × IsCollected (clean_up late_node)
    × (may_vote own_header (clean_up late_node) ≡ may_vote own_header late_node)
unfolding spawn clean_up sanitize_header verify_header verify check_workers worker stake
    header_digest payload_bytes parents_bytes new_header be_bytes le_bytes
clean_up-may_vote_example = clean_up-may_vote primitives late_node own_header (omega arith) refl

-- The parents of the header are not in the store.
process_header-forwards_example :
    Sound
      (IsSentFirst (node.sent ++ consensus_header own_header ∷ []))
      (process_header primitives codec own_header node)
process_header-forwards_example = process_header-forwards primitives codec own_header node
