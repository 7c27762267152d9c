-- ===== src/Ledger.antt =====
-- src/mellowlang/ledger_core.py. Its values are those of JSON; Book posts, and Audit verifies.
pub mod Values
pub mod Book
pub mod Audit
pub mod Fields
pub mod Postings
pub mod Entries
pub mod NewEntry
pub mod Chain
pub mod Tampering
mod Tests
