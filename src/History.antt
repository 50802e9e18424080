-- ===== src/History.antt =====
-- src/api/history.rs: the entries of an account, newest first, in pages that a cursor continues.
pub mod Cursor
pub mod Query
pub mod Page
pub mod RoundTrip
pub mod Order
pub mod Walk
pub mod Listing
pub mod Shown
pub mod Answer
mod Tests
