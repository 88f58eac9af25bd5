-- ===== src/Examples/TaskCases.antt =====
-- The garbage collector and the helper of a primary with four authorities.
use sailfish_test.Prelude.{◌≡◌, refl, List, [], ◌∷◌, some}
use sailfish_test.Crypto.{to_vec}
use sailfish_test.Config.{SocketAddr, our_workers}
use sailfish_test.Config
use sailfish_test.Messages.{Certificate}
use sailfish_test.Core.{Store}
use sailfish_test.Tasks.{GarbageCollector, spawn_collector}
use sailfish_test.Examples.Fixtures.{committee, certificate_of}
use sailfish_test.Examples.CoreCases.{empty_store}

abbrev pub collector : GarbageCollector
collector = record {
  consensus_round = 0;
  last_committed_round = 0;
  addresses = 401 ∷ [];
  sent = [];
}

pub spawned : spawn_collector 1 committee ≡ some collector
unfolding spawn_collector our_workers
spawned = refl

abbrev pub committed : Certificate
committed = certificate_of 2 7 70 []

-- The certificate that the codec reads back, under its digest.
abbrev stocked : Store
stocked = record empty_store { entries = (12, to_vec 12) ∷ [] }

abbrev helped : List (SocketAddr × Certificate)
helped = (3, certificate_of 2 1 12 []) ∷ []
