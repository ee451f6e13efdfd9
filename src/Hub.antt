-- ===== src/Hub.antt =====
-- delivery.rs: the hub. Tokens, names and streams; queues, sending and mediation; grant requests,
-- denial blocks and the claims of governorship.
pub mod State
pub mod Sets
pub mod Queue
pub mod Inbox
pub mod Tokens
pub mod Peers
pub mod Names
pub mod Listening
pub mod Removal
pub mod Issue
pub mod Visible
pub mod Start
pub mod Denial
pub mod Governance
pub mod Requests
pub mod Sending
pub mod Mediation
pub mod Authority
pub mod Attachments
