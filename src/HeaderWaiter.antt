-- ===== src/HeaderWaiter.antt =====
-- primary/src/header_waiter.rs: the headers whose parents or payload are missing, and the requests for
-- what they miss. The outcome of a future of `waiting` is an event: the store (`Storage`) answers it or
-- its handler cancels it. Times are milliseconds, and `none` is a panic.
pub mod Waiters
pub mod Pending
pub mod Batches
pub mod Requests
pub mod Retries
use sailfish_test.Prelude.{
  ℕ, suc, zero, ◌+◌, ◌-◌, List, [], ◌∷◌, ◌++◌, map, Bool, true, false, not, ◌&&◌, ◌||◌, Option,
  none, some, ltb, leb, ◌==◌, if◌then◌else◌, retain, get, insert, remove, unwrap_or, contains_key,
  is_empty, keys, any, get_elem?,
}
use sailfish_test.Crypto.{Digest, PublicKey}
use sailfish_test.Config.{
  Committee, WorkerId, SocketAddr, ConfigResult, WorkerAddresses, PrimaryAddresses, worker, primary,
  others_primaries,
}
use sailfish_test.Config
use sailfish_test.Messages.{Round, Header}

-- A key of the store: a certificate, or a batch under its worker.
pub data Missing : Type 0 where
  parent : Digest → Missing
  batch : Digest → WorkerId → Missing

-- `HeaderWaiter::waiter`: it returns `deliver` when all keys are in the store, or nothing when its
-- handler is sent to or dropped.
pub record Waiter : Type 0 where
  pub wait_for : List Missing
  pub deliver : Header
  pub cancelled : Bool

-- `PrimaryWorkerMessage::Synchronize`, `PrimaryMessage::CertificatesRequest`, and the header for the core.
pub data Output : Type 0 where
  synchronize : SocketAddr → List Digest → PublicKey → Output
  certificates_request : SocketAddr → List Digest → PublicKey → Output
  lucky_broadcast : List SocketAddr → List Digest → PublicKey → ℕ → Output
  core : Header → Output

pub record HeaderWaiter : Type 0 where
  pub name : PublicKey
  pub committee : Committee
  pub gc_depth : Round
  pub sync_retry_delay : ℕ
  pub sync_retry_nodes : ℕ
  pub parent_requests : List (Digest × (Round × ℕ))
  pub batch_requests : List (Digest × Round)
  -- The sender of a handler is that of the waiter of the same header.
  pub pending : List (Digest × Round)
  pub waiting : List Waiter
  -- The messages sent so far, the oldest first.
  pub sent : List Output

unfoldable pub spawn : PublicKey → Committee → Round → ℕ → ℕ → HeaderWaiter
spawn name c gc_depth sync_retry_delay sync_retry_nodes = record {
  name = name;
  committee = c;
  gc_depth = gc_depth;
  sync_retry_delay = sync_retry_delay;
  sync_retry_nodes = sync_retry_nodes;
  parent_requests = [];
  batch_requests = [];
  pending = [];
  waiting = [];
  sent = [];
}

abbrev emit : Output → HeaderWaiter → HeaderWaiter
emit o s = record s { sent = s.sent ++ o ∷ [] }

-- The header is pending, and a waiter is in the pool.
unfoldable pub add_waiter : List Missing → Header → HeaderWaiter → HeaderWaiter
add_waiter wait_for h s = record s {
  pending = insert h.id h.round s.pending;
  waiting = s.waiting ++ record { wait_for = wait_for; deliver = h; cancelled = false } ∷ [];
}

-- The loop over the missing batches: those not yet requested, by worker.
unfoldable pub request_batches :
    Round
    → List (Digest × WorkerId)
    → List (Digest × Round) × List (WorkerId × List Digest)
    → List (Digest × Round) × List (WorkerId × List Digest)
request_batches r [] rs = rs
request_batches r ((d, w) ∷ missing) (requests, requires_sync) = request_batches r missing (
    if contains_key d requests then (requests, requires_sync) else (
      insert d r requests,
      insert w (unwrap_or [] (get w requires_sync) ++ d ∷ []) requires_sync,
    ))

abbrev pub worker_address : ConfigResult WorkerAddresses → Option SocketAddr
worker_address (Config.ConfigResult.ok a) = some a.primary_to_worker
worker_address (Config.ConfigResult.err e) = none

abbrev pub primary_address : ConfigResult PrimaryAddresses → Option SocketAddr
primary_address (Config.ConfigResult.ok a) = some a.primary_to_primary
primary_address (Config.ConfigResult.err e) = none

-- One `Synchronize` for each worker, sent to the worker of the author.
unfoldable pub send_synchronize :
    PublicKey → List (WorkerId × List Digest) → HeaderWaiter → Option HeaderWaiter
send_synchronize author [] s = some s
send_synchronize author ((w, ds) ∷ rest) s = elim (worker_address (worker s.committee author w)) [
  | none ↦ none
  | some address ↦ send_synchronize author rest (emit (synchronize address ds author) s)
]

unfoldable pub sync_batches : List (Digest × WorkerId) → Header → HeaderWaiter → Option HeaderWaiter
unfolding add_waiter request_batches send_synchronize
sync_batches missing h s =
    let (requests, requires_sync) = request_batches h.round missing (s.batch_requests, []) in
    send_synchronize h.author requires_sync
      (record (add_waiter (map (λ e. batch e.0 e.1) missing) h s) { batch_requests = requests })

-- The loop over the missing parents: those not yet requested.
unfoldable pub request_parents :
    Round
    → ℕ
    → List Digest
    → List (Digest × (Round × ℕ)) × List Digest
    → List (Digest × (Round × ℕ)) × List Digest
request_parents r now [] rs = rs
request_parents r now (d ∷ missing) (requests, requires_sync) = request_parents r now missing (
    if contains_key d requests
    then (requests, requires_sync)
    else (insert d (r, now) requests, requires_sync ++ d ∷ []))

-- One request to the primary of the author, if anything is new.
unfoldable pub sync_parents : ℕ → List Digest → Header → HeaderWaiter → Option HeaderWaiter
unfolding add_waiter request_parents
sync_parents now missing h s =
    let (requests, requires_sync) = request_parents h.round now missing (s.parent_requests, []) in
    let s' : HeaderWaiter = record (add_waiter (map parent missing) h s) {
      parent_requests = requests;
    } in
    if is_empty requires_sync
    then some s'
    else elim (primary_address (primary s.committee h.author)) [
      | none ↦ none
      | some address ↦ some (emit (certificates_request address requires_sync s.name) s')
    ]

-- The handler of a header is dropped or sent to.
unfoldable pub cancel : Digest → List Waiter → List Waiter
cancel id [] = []
cancel id (w ∷ ws) =
    (if w.deliver.id == id then record w { cancelled = true } else w) ∷ cancel id ws

unfoldable pub take_waiter : ℕ → List Waiter → List Waiter
take_waiter i [] = []
take_waiter zero (w ∷ ws) = ws
take_waiter (suc i) (w ∷ ws) = w ∷ take_waiter i ws

unfoldable pub remove_all {ℓ} : {V : Type ℓ} → List ℕ → List (ℕ × V) → List (ℕ × V)
remove_all [] m = m
remove_all (k ∷ ks) m = remove_all ks (remove k m)

-- A waiter has all that its header misses: the header goes back to the core.
unfoldable pub deliver_header : Header → HeaderWaiter → HeaderWaiter
unfolding remove_all cancel
deliver_header h s = emit (core h) (record s {
  pending = remove h.id s.pending;
  waiting = cancel h.id s.waiting;
  batch_requests = remove_all (keys h.payload) s.batch_requests;
  parent_requests = remove_all h.parents s.parent_requests;
})

-- The requests that are older than the delay.
abbrev pub old_requests : ℕ → HeaderWaiter → List Digest
old_requests now s = keys (retain (λ e. ltb (e.1.1 + s.sync_retry_delay) now) s.parent_requests)

unfoldable pub retry : ℕ → HeaderWaiter → HeaderWaiter
retry now s =
    emit
      (lucky_broadcast (map (λ e. e.1.primary_to_primary) (others_primaries s.committee s.name))
        (old_requests now s) s.name s.sync_retry_nodes)
      s

unfoldable pub cancel_old : Round → List (Digest × Round) → List Waiter → List Waiter
unfolding cancel
cancel_old gc_round [] ws = ws
cancel_old gc_round ((id, r) ∷ pending) ws =
    let rest = cancel_old gc_round pending ws in if leb r gc_round then cancel id rest else rest

unfoldable pub collect : Round → HeaderWaiter → HeaderWaiter
unfolding cancel_old
collect gc_round s = record s {
  waiting = cancel_old gc_round s.pending s.waiting;
  pending = retain (λ e. ltb gc_round e.1) s.pending;
  batch_requests = retain (λ e. ltb gc_round e.1) s.batch_requests;
  parent_requests = retain (λ e. ltb gc_round e.1.0) s.parent_requests;
}

-- The cleanup, at a consensus round.
unfoldable pub clean_up : Round → HeaderWaiter → HeaderWaiter
unfolding collect
clean_up round s = if ltb s.gc_depth round then collect (round - s.gc_depth) s else s

-- What the `select` receives: a message of the synchronizer, the outcome of the future at a place of
-- the pool, or the timer.
pub data Event : Type 0 where
  batches_missing : List (Digest × WorkerId) → Header → Event
  parents_missing : ℕ → List Digest → Header → Event
  arrived : ℕ → Event
  was_cancelled : ℕ → Event
  storage_failed : ℕ → Event
  timer : ℕ → Event

abbrev pub then_clean_up : Round → Option HeaderWaiter → Option HeaderWaiter
then_clean_up round none = none
then_clean_up round (some s) = some (clean_up round s)

-- A turn of the main loop. Futures that are not there, or not cancelled, do not end that way. `round`
-- is the consensus round at its end. The `continue` for a header that is pending skips the cleanup.
unfoldable pub step : Round → Event → HeaderWaiter → Option HeaderWaiter
unfolding sync_batches sync_parents deliver_header take_waiter retry clean_up
step round (batches_missing missing h) s =
    if contains_key h.id s.pending then some s else then_clean_up round (sync_batches missing h s)
step round (parents_missing now missing h) s =
    if contains_key h.id s.pending
    then some s
    else then_clean_up round (sync_parents now missing h s)
step round (arrived i) s = elim (get_elem? s.waiting i) [
  | none ↦ some s
  | some w ↦
      some
        (clean_up round (deliver_header w.deliver (record s { waiting = take_waiter i s.waiting })))
]
step round (was_cancelled i) s = elim (get_elem? s.waiting i) [
  | none ↦ some s
  | some w ↦
      if w.cancelled
      then some (clean_up round (record s { waiting = take_waiter i s.waiting }))
      else some s
]
step round (storage_failed i) s = none
step round (timer now) s = some (clean_up round (retry now s))

unfoldable pub run : List (Round × Event) → HeaderWaiter → Option HeaderWaiter
unfolding step
run [] s = some s
run ((round, e) ∷ es) s = elim (step round e s) [ none ↦ none | some s' ↦ run es s' ]
