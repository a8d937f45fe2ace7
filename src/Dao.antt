-- ===== src/Dao.antt =====
-- The dao pallet, runtime/src/dao.rs.
pub mod State
pub mod Members
pub mod Execution
pub mod Proposals
pub mod Calls
pub mod Invariant
pub mod Run
pub mod Admission
pub mod Bounds
pub mod Roster
pub mod Founding
pub mod Expiry
pub mod Ballots
pub mod Tally
pub mod Genesis
pub mod Loans
mod Tests
mod Histories
