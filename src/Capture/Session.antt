-- ===== src/Capture/Session.antt =====
-- Recorded sessions (capture/session.py): what is written of a flow and read back, the writer thread
-- beside the event loop, the pages of a reader, and which session records.
pub mod Rows
pub mod RoundTrip
pub mod Writer
pub mod Accounts
pub mod Bounds
pub mod Table
pub mod Drain
pub mod Settled
pub mod Reader
pub mod Inserted
pub mod Stored
pub mod OnePass
pub mod Pages
