-- ===== src/Tests.antt =====
-- Runs of the model on a small container: its mounts, the requests of a process, its registration.
pub mod Fixtures
pub mod Tree
mod MountRuns
mod SyscallRuns
mod StateRuns
mod TrackerRuns
mod ProcessRuns
mod CallRuns
mod FuseRuns
mod HandlerRuns
mod AgentRuns
mod ExchangeRuns
mod DispatchRuns
