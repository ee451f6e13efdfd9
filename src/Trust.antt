-- ===== src/Trust.antt =====
-- trust.rs: the governor pointer, the pairwise grants and the pending governor transfers.
pub mod Grant
pub mod Chain
pub mod Check
pub mod Listing
pub mod Transfer
pub mod Load
pub mod Ids
pub mod Budget
pub mod Access
pub mod Purge
