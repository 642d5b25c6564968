-- ===== src/Application.antt =====
-- The application crate: the use cases on accounts, their details and their relations, the actor
-- documents, the inbox, and the projectors.
pub mod World
pub mod Aggregate
pub mod Moderation
pub mod Lifecycle
pub mod Roles
pub mod Follows
pub mod Network
pub mod Blocks
pub mod Inbox
pub mod Projection
pub mod DetailProjection
pub mod FollowRequests
pub mod Mutes
pub mod RelationLists
pub mod Details
pub mod DetailWorld
pub mod AccountDto
pub mod FieldUpdates
pub mod DetailUpdate
pub mod Creation
pub mod Pages
pub mod DetailReading
pub mod Actors
pub mod UpdatePerson
