-- ===== src/Database.antt =====
-- database/database.go: the records that the master stores, and their binary form.
pub mod Encode
pub mod Decode
pub mod Records
pub mod Layout
pub mod RoundTrip
pub mod Faults
