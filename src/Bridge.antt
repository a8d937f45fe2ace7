-- ===== src/Bridge.antt =====
-- The bridge pallet, runtime/src/bridge.rs: its storage, its checks, the execution of agreed
-- messages, the vote `_sign`, the calls of validators and users, and the daily clean-up.
pub mod State
pub mod Limits
pub mod Messages
pub mod Execute
pub mod Sign
pub mod Calls
pub mod Invariant
pub mod Index
pub mod Bounds
pub mod Quorum
pub mod Requests
pub mod Withdrawals
pub mod Decisions
pub mod Genesis
pub mod Reopening
pub mod Trust
pub mod Counted
pub mod Voters
pub mod Run
mod Tests
