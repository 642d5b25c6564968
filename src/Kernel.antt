-- ===== src/Kernel.antt =====
-- The kernel crate: errors, events, the three aggregates and their replay, ids, permissions,
-- relations, activities, actor documents and signing keys.
pub mod Error
pub mod Exec
pub mod Event
pub mod Id
pub mod Account
pub mod Rehydrated
pub mod FieldAction
pub mod Profile
pub mod Metadata
pub mod Text
pub mod Permission
pub mod Relation
pub mod Activity
pub mod SigningKey
pub mod Actor
pub mod HttpSigning
