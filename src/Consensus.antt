-- ===== src/Consensus.antt =====
-- consensus/src/lib.rs: the DAG of certificates in memory, the order in which it is committed, and
-- the two arms of the main loop. Channels are lists of what is sent. `none` stands for a panic.
pub mod State
pub mod Order
pub mod Steps
