-- ===== src/Examples/WorkerCases.antt =====
-- The tasks of a worker with four authorities, and a connection.
use sailfish_test.Prelude.{
  contains_key, ℕ, ◌≡◌, refl, List, [], ◌∷◌, ◌++◌, true, false, not, ◌&&◌, none, some, arith, leb,
  is_empty, contains, All, unwrap_or,
}
use mathlib.Core.List.{Memᴰ}
use sailfish_test.Crypto.{Digest, PublicKey}
use sailfish_test.Config.{WorkerId, SocketAddr, stake, quorum_threshold, worker}
use sailfish_test.Config.Stakes.{weight}
use sailfish_test.Messages.{Header}
use sailfish_test.HeaderWaiter
use sailfish_test.HeaderWaiter.{
  HeaderWaiter, sync_batches, request_batches, send_synchronize, add_waiter,
}
use sailfish_test.Worker.{Bytes, Store, process, help}
use sailfish_test.Worker.BatchMaker
use sailfish_test.Worker.BatchMaker.{IsBatched, run-IsBatched}
use sailfish_test.Worker.QuorumWaiter.{wait_for_quorum, wait_for_quorum_iff}
use sailfish_test.Worker.Storing.{process_all, batch_served}
use sailfish_test.Worker.Synchronizer
use sailfish_test.Worker.Synchronizer.{Synchronizer, synchronize}
use sailfish_test.Worker.Synchronizer.Found.{is_absent}
use sailfish_test.Worker.Synchronizer.Missing.{IsSynchronized, Sent, synchronize_lem}
use sailfish_test.Worker.Synchronizer.Author.{IsAskedIn, IsToAuthor, sync_batches-author}
use sailfish_test.ReliableSender
use sailfish_test.ReliableSender.{InnerMessage}
use sailfish_test.ReliableSender.Order.{IsInLine, taken, run-IsInLine}
use sailfish_test.Examples.Fixtures.{committee, primitives, header_of}
use sailfish_test.Examples.ConfigCases.{committee-IsValid}

abbrev arrivals : List BatchMaker.Event
arrivals =
    BatchMaker.transaction (1 ∷ 2 ∷ [])
    ∷ BatchMaker.transaction (3 ∷ 4 ∷ [])
    ∷ BatchMaker.transaction (5 ∷ [])
    ∷ BatchMaker.timer
    ∷ []

run-IsBatched_example :
    IsBatched
      ((1 ∷ 2 ∷ []) ∷ (3 ∷ 4 ∷ []) ∷ (5 ∷ []) ∷ [])
      (BatchMaker.run arrivals (BatchMaker.spawn 3 []))
run-IsBatched_example = run-IsBatched arrivals 3 [] (omega arith, (omega arith, (omega arith, tt)))

wait_for_quorum_iff_example : wait_for_quorum committee (stake committee 1) (2 ∷ 4 ∷ []) ≡ (
    not (is_empty {A = ℕ} (2 ∷ 4 ∷ []))
    && leb (quorum_threshold committee) (weight committee (1 ∷ 2 ∷ 4 ∷ [])))
wait_for_quorum_iff_example =
    wait_for_quorum_iff committee 1 (2 ∷ 4 ∷ []) committee-IsValid (refl, (refl, (refl, tt)))

abbrev bare : Store
bare = record { batches = []; broken = false }

abbrev block : Bytes
block = 9 ∷ 8 ∷ 7 ∷ []

batch_served_example :
    Memᴰ
      (303, block)
      (help 0 committee
        (process_all primitives 0 true ((1 ∷ []) ∷ []) (process primitives 0 true block bare).0)
        (primitives.sha512 block ∷ [])
        3)
unfolding worker
batch_served_example =
    batch_served primitives 0 true block ((1 ∷ []) ∷ []) bare committee
      (primitives.sha512 block ∷ []) 3
      (record { transactions = 203; worker_to_worker = 303; primary_to_worker = 403 }) refl
      ((λ e. absurd (omega (arith, e))), tt) refl refl

abbrev worker_of : ℕ → Store → Synchronizer
worker_of name store = Synchronizer.spawn name 0 committee store 50 5 2

synchronize_lem_example :
    (missing : List Digest) × IsSynchronized
      (60 ∷ 61 ∷ [])
      missing
      (worker_of 1 bare)
      (synchronize 10 (60 ∷ 61 ∷ []) 2 (worker_of 1 bare))
    × Sent
        (worker committee 2 0)
        missing
        (worker_of 1 bare)
        (synchronize 10 (60 ∷ 61 ∷ []) 2 (worker_of 1 bare)).sent
unfolding Synchronizer.spawn
synchronize_lem_example = synchronize_lem 10 (60 ∷ 61 ∷ []) 2 (worker_of 1 bare)

abbrev waiter : HeaderWaiter
waiter = HeaderWaiter.spawn 1 committee 50 5 2

-- A header of authority 2 whose batch is missing.
abbrev hungry : Header
hungry = record (header_of 2 1 40 []) { payload = (60, 0) ∷ [] }

abbrev waits : HeaderWaiter
waits = unwrap_or waiter (sync_batches ((60, 0) ∷ []) hungry waiter)

asks : sync_batches ((60, 0) ∷ []) hungry waiter ≡ some waits
unfolding HeaderWaiter.spawn sync_batches request_batches send_synchronize add_waiter worker
asks = refl

sync_batches-author_example :
    (outs : List HeaderWaiter.Output) × (waits.sent ≡ waiter.sent ++ outs)
    × All (IsToAuthor waiter.committee 2 ((60, 0) ∷ []) waiter.batch_requests) outs
    × ((d : Digest) (w : WorkerId)
        → Memᴰ {A = Digest × WorkerId} (d, w) ((60, 0) ∷ [])
        → contains_key d waiter.batch_requests ≡ false
        → IsAskedIn outs d)
    × ((address : SocketAddr) (ds : List Digest) (target : PublicKey)
        → Memᴰ (HeaderWaiter.synchronize address ds target) outs
        → (now : ℕ) (t : Synchronizer)
        → ((d : Digest) → contains ds d ≡ true → is_absent t.store d ≡ false)
        → Sent (worker t.committee target t.id) [] t (synchronize now ds target t).sent)
sync_batches-author_example = sync_batches-author ((60, 0) ∷ []) hungry waiter waits asks

abbrev letter : ℕ → InnerMessage
letter n = record { data_ = n ∷ []; cancel_handler = n }

abbrev traffic : List ReliableSender.Event
traffic =
    ReliableSender.connected
    ∷ ReliableSender.turn [] (ReliableSender.receive (letter 1))
    ∷ ReliableSender.turn [] (ReliableSender.receive (letter 2))
    ∷ ReliableSender.turn (false ∷ []) (ReliableSender.respond none)
    ∷ ReliableSender.connected
    ∷ ReliableSender.turn [] (ReliableSender.respond (some (0 ∷ [])))
    ∷ []

run-IsInLine_example :
    IsInLine (taken traffic ReliableSender.spawn) (ReliableSender.run traffic ReliableSender.spawn)
run-IsInLine_example = run-IsInLine traffic
