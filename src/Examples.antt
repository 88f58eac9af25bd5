-- ===== src/Examples.antt =====
-- Runs of the model on concrete inputs.
pub mod Fixtures
pub mod ConfigCases
pub mod MessageCases
pub mod AggregatorCases
pub mod ConsensusCases
pub mod StepCases
pub mod CoreCases
pub mod LifeCases
mod ProposerCases
mod StorageCases
mod WaiterCases
mod WorkerCases
mod NodeCases
mod TaskCases
