-- ===== src/Driver.antt =====
-- The driver crate: the PostgreSQL event stores, repositories, projections and tables, and the check
-- of HTTP signatures.
pub mod EventStore
pub mod EventLog
pub mod Profiles
pub mod Images
pub mod MetadataRows
pub mod Repository
pub mod Accounts
pub mod Relations
pub mod RemoteAccounts
pub mod Outbox
pub mod SigningKeys
pub mod HttpSigning
