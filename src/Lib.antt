-- ===== src/Lib.antt =====
-- A model of the nodes of Sailfish: the DAG of certified headers that the primaries of a committee
-- build, the order in which the consensus commits it, and the workers that spread the transactions.
--
-- A primary's core receives headers, votes, certificates, timeouts and no-vote messages from other
-- primaries and from its proposer. It checks them (primary/src/messages.rs, with the committee of
-- config/src/lib.rs and the signatures of crypto/src/lib.rs), looks for their parents and payload in
-- the store (primary/src/synchronizer.rs), votes for the first header of each author in a round, and
-- gathers votes into certificates, certificates into the parents of the next header, and timeouts and
-- no-vote messages into certificates of their own (primary/src/aggregators.rs). It sends each header
-- and each complete certificate to the consensus (consensus/src/lib.rs), which keeps the DAG, elects
-- one leader in each round, and commits a leader with enough support together with its history. The
-- proposer makes the next header of parents and of the digests of its workers. Headers and
-- certificates that lack something wait in the header waiter and the certificate waiter until the
-- store has it. A worker puts transactions together to batches, sends them to the workers of the other
-- authorities, waits for a quorum of acknowledgements, stores the batch and tells its primary.
--
-- Prelude            Boolean tests, machine words, lists, and maps as association lists.
-- Crypto             crypto/src/lib.rs: digests, signatures, and the library calls as `Primitives`.
-- Config             config/src/lib.rs: `Committee`. `committee_size` is `size`, and `none` from
--                    `leader` is its panic on an empty committee. Children: stakes, thresholds, the
--                    round-robin.
-- Messages           primary/src/messages.rs and error.rs: the structs, `new`, `digest` (as
--                    `header_digest` and so on); Messages/Checks has the `verify` methods.
-- Aggregators        primary/src/aggregators.rs: `append` of the four aggregators.
-- Consensus          consensus/src/lib.rs: Consensus/State is `State`, Consensus/Order holds `leader`,
--                    `linked`, `order_leaders` and `order_dag`, Consensus/Steps the two arms of `run`
--                    as `receive_header` and `receive_certificate`. `none` is a panic.
-- Core               primary/src/core.rs and synchronizer.rs: the state, the handlers in a monad that
--                    keeps what a failing handler has changed and sent, the checks on arrival, and
--                    `run` as `step`. The messages sent are a list in the state. Core/Sound, Frame,
--                    Circle and Dispatch carry a property of the state through all handlers.
-- Proposer           primary/src/proposer.rs: the state with the local variables of `run`, the messages
--                    it makes, and `run`, which takes the events that the select receives, each with
--                    the time. `propose` is what a turn does before the select.
-- HeaderWaiter       primary/src/header_waiter.rs: what is pending and requested, and the pool of
--                    waiters. How a future of the pool ends is an event.
-- CertificateWaiter  primary/src/certificate_waiter.rs, over the store of Storage.
-- Tasks              primary/src/garbage_collector.rs, helper.rs and payload_receiver.rs, and
--                    Tasks/Receivers the network handlers of primary/src/primary.rs. Tasks/Node puts
--                    the garbage collector together with the core, Tasks/Arrival the handlers, the
--                    tasks of a worker and the payload receiver.
-- Storage            store/src/lib.rs: the task that owns the database, with its obligations.
-- Worker             worker/src/worker.rs (the messages), processor.rs, helper.rs and
--                    primary_connector.rs. Worker/BatchMaker, QuorumWaiter and Synchronizer model the
--                    files of these names, Worker/Receivers the network handlers of worker.rs, and
--                    Worker/Node its tasks with the channels between them.
-- ReliableSender     network/src/reliable_sender.rs: a connection as a state machine over what the
--                    network does, and `send`, `broadcast` and `lucky_broadcast`.
-- SimpleSender       network/src/simple_sender.rs: the same without retransmission.
-- Receiver           network/src/receiver.rs: the frames of one connection.
-- Examples           Concrete inputs.
--
-- A task is a function from a list of events to its last state, which holds the messages sent so far:
-- the events stand for the messages on its channels, timers, and answers of other tasks, in any order.
-- A result `none` is a panic, which ends the node. The core reads an abstract store that other tasks
-- write to at any point between two steps; Storage models the task behind it.
--
-- Integers are natural numbers; the arithmetic of `u32` and `u64` wraps around, as in a release build.
-- Digests and keys are the numbers that their 32 bytes spell. A valid committee has its keys in
-- ascending order, as a BTreeMap holds them, and stakes whose double fits in a `u32`.
--
-- `order_dag` runs on fuel: one more than the number of certificates in the DAG, since each turn of its
-- loop takes a certificate off the buffer, and each is put there at most once. `process_vote`,
-- `process_certificate` and `process_header` call one another: a vote may complete a certificate of
-- the current header, whose header may have to be processed, which may cast a vote of its own. The
-- model unrolls this circle twice; by then the current header is noted as being processed, so that its
-- certificate does not process it again.
--
-- Not modelled: the database, the serialisation and the shuffle of `lucky_broadcast` (functions that the
-- definitions take as parameters); sockets, and the accepting of connections in network/src/receiver.rs;
-- that channels are bounded and may be closed; the spawning of tasks in primary/src/primary.rs; logging
-- and the log entries for benchmarks; key files and JSON configuration; the command line and the load
-- generator of node/src; the branch of the leader election that only tests compile; and the order in
-- which a hash map is read.
pub mod Prelude
pub mod Crypto
pub mod Config
pub mod Messages
pub mod Aggregators
pub mod Consensus
pub mod Core
pub mod Proposer
pub mod Storage
pub mod HeaderWaiter
pub mod CertificateWaiter
pub mod Tasks
pub mod Worker
pub mod ReliableSender
pub mod Receiver
pub mod SimpleSender
pub mod Examples
