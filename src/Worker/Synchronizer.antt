-- ===== src/Worker/Synchronizer.antt =====
-- worker/src/synchronizer.rs: the batches that the primary asks for. Times are milliseconds. The outcome
-- of a future of `waiting` is an event: the store answers it or its handler cancels it.
pub mod Found
pub mod Missing
pub mod Author
use sailfish_test.Prelude.{
  ℕ, zero, suc, ◌+◌, ◌-◌, List, [], ◌∷◌, ◌++◌, map, Bool, true, false, not, Option, none, some, ltb,
  leb, ◌==◌, if◌then◌else◌, retain, get, insert, remove, contains_key, is_empty, keys, get_elem?,
}
use sailfish_test.Crypto.{Digest, PublicKey}
use sailfish_test.Config.{
  Committee, SocketAddr, WorkerId, ConfigResult, WorkerAddresses, worker, others_workers,
}
use sailfish_test.Config
use sailfish_test.Messages.{Round}
use sailfish_test.Worker.{Bytes, Store, read}

-- `Synchronizer::waiter`, for the batch that it delivers.
pub record Waiter : Type 0 where
  pub deliver : Digest
  pub cancelled : Bool

-- A `BatchRequest` to one worker, or to some of several.
pub data Output : Type 0 where
  batch_request : SocketAddr → List Digest → PublicKey → Output
  lucky_broadcast : List SocketAddr → List Digest → PublicKey → ℕ → Output

pub record Synchronizer : Type 0 where
  pub name : PublicKey
  pub id : WorkerId
  pub committee : Committee
  pub store : Store
  pub gc_depth : Round
  pub sync_retry_delay : ℕ
  pub sync_retry_nodes : ℕ
  pub round : Round
  pub pending : List (Digest × (Round × ℕ))
  pub waiting : List Waiter
  -- The requests sent so far, the oldest first.
  pub sent : List Output

unfoldable pub spawn : PublicKey → WorkerId → Committee → Store → Round → ℕ → ℕ → Synchronizer
spawn name id c store gc_depth sync_retry_delay sync_retry_nodes = record {
  name = name;
  id = id;
  committee = c;
  store = store;
  gc_depth = gc_depth;
  sync_retry_delay = sync_retry_delay;
  sync_retry_nodes = sync_retry_nodes;
  round = 0;
  pending = [];
  waiting = [];
  sent = [];
}

abbrev emit : Output → Synchronizer → Synchronizer
emit o s = record s { sent = s.sent ++ o ∷ [] }

unfoldable pub add_waiter : ℕ → Digest → Synchronizer → Synchronizer
add_waiter now d s = record s {
  waiting = s.waiting ++ record { deliver = d; cancelled = false } ∷ [];
  pending = insert d (s.round, now) s.pending;
}

-- A digest of a request by what the store answers: one that cannot be read is passed over.
unfoldable pub look :
    Option (Option Bytes) → ℕ → Digest → List Digest × Synchronizer → List Digest × Synchronizer
unfolding add_waiter
look none now d (missing, s) = (missing, s)
look (some none) now d (missing, s) = (missing ++ d ∷ [], add_waiter now d s)
look (some (some bytes)) now d (missing, s) = (missing, add_waiter now d s)

-- The loop over the digests: those that are pending are passed over.
unfoldable pub find_missing :
    ℕ → List Digest → List Digest × Synchronizer → List Digest × Synchronizer
unfolding look
find_missing now [] r = r
find_missing now (d ∷ ds) r =
    find_missing now ds (if contains_key d r.1.pending then r else look (read r.1.store d) now d r)

-- A request to one node; none if the primary names an unknown one.
unfoldable pub request : ConfigResult WorkerAddresses → List Digest → Synchronizer → Synchronizer
request (Config.ConfigResult.err e) missing s = s
request (Config.ConfigResult.ok address) missing s =
    emit (batch_request address.worker_to_worker missing s.name) s

unfoldable pub synchronize : ℕ → List Digest → PublicKey → Synchronizer → Synchronizer
unfolding find_missing request
synchronize now digests target s =
    let (missing, s') = find_missing now digests ([], s) in
    request (worker s'.committee target s'.id) missing s'

unfoldable pub cancel : Digest → List Waiter → List Waiter
cancel d [] = []
cancel d (w ∷ ws) = (if w.deliver == d then record w { cancelled = true } else w) ∷ cancel d ws

unfoldable pub cancel_old : Round → List (Digest × (Round × ℕ)) → List Waiter → List Waiter
unfolding cancel
cancel_old gc_round [] ws = ws
cancel_old gc_round ((d, (r, now)) ∷ pending) ws =
    let rest = cancel_old gc_round pending ws in if leb r gc_round then cancel d rest else rest

unfoldable pub collect : Round → Synchronizer → Synchronizer
unfolding cancel_old
collect gc_round s = record s {
  waiting = cancel_old gc_round s.pending s.waiting;
  pending = retain (λ e. ltb gc_round e.1.0) s.pending;
}

unfoldable pub cleanup : Round → Synchronizer → Synchronizer
unfolding collect
cleanup round s =
    let s' : Synchronizer = record s { round = round } in
    if ltb round s.gc_depth then s' else collect (round - s.gc_depth) s'

unfoldable pub take_waiter : ℕ → List Waiter → List Waiter
take_waiter i [] = []
take_waiter zero (w ∷ ws) = ws
take_waiter (suc i) (w ∷ ws) = w ∷ take_waiter i ws

-- The batch of a waiter is in the store: it is not pending any more.
unfoldable pub arrive : ℕ → Waiter → Synchronizer → Synchronizer
unfolding cancel take_waiter
arrive i w s = record s {
  waiting = cancel w.deliver (take_waiter i s.waiting);
  pending = remove w.deliver s.pending;
}

abbrev pub old_requests : ℕ → Synchronizer → List Digest
old_requests now s = keys (retain (λ e. ltb (e.1.1 + s.sync_retry_delay) now) s.pending)

-- At the timer, old requests are sent to other workers.
unfoldable pub retry : ℕ → Synchronizer → Synchronizer
retry now s =
    if is_empty (old_requests now s)
    then s
    else emit
        (lucky_broadcast (map (λ e. e.1.worker_to_worker) (others_workers s.committee s.name s.id))
          (old_requests now s) s.name s.sync_retry_nodes)
        s

pub data Event : Type 0 where
  asked : ℕ → List Digest → PublicKey → Event
  collected : Round → Event
  arrived : ℕ → Event
  was_cancelled : ℕ → Event
  storage_failed : ℕ → Event
  timer : ℕ → Event
  -- Another task writes to the store.
  stored : Store → Event

-- A turn of the main loop. Futures that are not there, or not cancelled, do not end that way; one whose
-- read fails leaves the pool, and its batch stays pending.
unfoldable pub step : Event → Synchronizer → Synchronizer
unfolding synchronize cleanup arrive take_waiter retry
step (asked now digests target) s = synchronize now digests target s
step (collected round) s = cleanup round s
step (arrived i) s = elim (get_elem? s.waiting i) [ none ↦ s | some w ↦ arrive i w s ]
step (was_cancelled i) s = elim (get_elem? s.waiting i) [
  | none ↦ s
  | some w ↦ if w.cancelled then record s { waiting = take_waiter i s.waiting } else s
]
step (storage_failed i) s = record s { waiting = take_waiter i s.waiting }
step (timer now) s = retry now s
step (stored store) s = record s { store = store }
