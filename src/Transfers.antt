-- ===== src/Transfers.antt =====
-- src/api/transfers.rs: the handler `create_transfer`, stage by stage in the order of its body.
pub mod Spec
pub mod Request
pub mod Price
pub mod Record
pub mod Perform
pub mod Create
pub mod Details
pub mod Moved
pub mod Sample
mod Tests
