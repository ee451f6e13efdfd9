-- ===== src/Examples.antt =====
-- Runs of the theorems on small inputs: two participants, a governor and a room.
mod Sample
mod Names
mod Grants
mod Meeting
mod Mail
mod Governing
mod Asking
mod Sent
mod Naming
mod Web
mod Attaching
