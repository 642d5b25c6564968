-- ===== src/Lib.antt =====
-- Emumet: the account service as a state machine over event streams, and what makes it correct.
--
-- The program. An account, a profile and a metadata entry are aggregates that are stored as streams of
-- events (kernel/src/entity/). A use case (application/src/service/) looks the account up in the read
-- model, asks the relation service for permission, loads the aggregate from its stream, checks it, and
-- saves a command, which appends one event if the stream is still at the version that was loaded
-- (driver/src/database/postgres/*_event_store.rs). Projectors read the events later and bring the read
-- model up to date. Follows, blocks and mutes have no events: they are rows that the use cases and the
-- inbox of the ActivityPub server write, in one transaction with the outbox where an activity is sent.
--
-- The files.
--   Prelude: lists, Boolean tests and the stable sort (`sort_by_key`, ORDER BY) that the parts share.
--   Kernel/Error, Exec: kernel/src/error.rs; code that fails and changes a state is a function from a
--     state to a result and a state. An error keeps what was written before it.
--   Kernel/Event, Rehydrated: kernel/src/entity/event.rs, kernel/src/event.rs and
--     kernel/src/repository/aggregate.rs: envelopes, commands, and the fold of a stream.
--   Kernel/Account, Profile, Metadata: kernel/src/entity/{account,profile,metadata}.rs: the commands
--     and `apply`, arm by arm. The clock that `DeletedAt::now()` reads is an argument of `apply`.
--   Kernel/Id: kernel/src/id.rs and entity/common/created_at.rs.
--   Kernel/FieldAction, Text, Permission: kernel/src/entity/common/field_action.rs, the `validate`
--     functions of names, reasons and profile texts, and kernel/src/permission.rs with
--     application/src/permission.rs.
--   Driver/EventStore: the three event stores of driver/src/database/postgres/, which differ in names
--     alone. A table is the list of its rows; each SQL statement is the function that it describes.
--   Driver/Repository: the three repositories of driver/src/database/postgres/, `load` and `save`.
--   Driver/Accounts: driver/src/database/postgres/account/{mod,row}.rs and the account writer of
--     projection.rs: rows, queries, the link table and the upsert.
--   Driver/EventLog: the event logs and the checkpoint store of driver/src/database/postgres/projection.rs.
--     Window and Batches are about what one read of the events returns.
--   Application/World: the state of a request (events, read model, calls of the relation service) and
--     the transaction manager of driver/src/database/postgres.rs.
--   Application/Aggregate: the load, check and save that the use cases share.
--   Application/Moderation: application/src/service/account/moderation.rs.
--   Application/Lifecycle: application/src/service/account/{deactivate,reactivate,update}.rs.
--   Application/Roles: application/src/service/account/instance_role.rs.
--   Application/Details: application/src/service/account_detail/validate.rs.
--   Driver/Accounts/Statements: the other statements of account/mod.rs there.
--   Driver/Profiles, MetadataRows, Images, SigningKeys: profile.rs, metadata.rs, image.rs and
--     signing_key.rs there, and the writers of projection.rs.
--   Kernel/SigningKey, Actor, HttpSigning: kernel/src/crypto.rs with entity/signing_key.rs, the actor
--     documents and collections of kernel/src/activitypub.rs, and kernel/src/http_signing.rs.
--   Driver/HttpSigning: the verifier of driver/src/http_signing/. Texts has the functions on strings,
--     Messages what a refusal says, Parser cavage/parser.rs, Cavage cavage/mod.rs, ActorKey
--     actor_key.rs, Ssrf ssrf.rs and fetch.rs, Verifier verifier.rs.
--   Application/DetailWorld: the state of the requests about details, with its transaction.
--   Application/AccountDto: application/src/dto/account.rs.
--   Application/FieldUpdates, DetailUpdate, DetailReading: application/src/service/account_detail/
--     {fields,update,read}.rs.
--   Application/Creation: application/src/service/account/create.rs and the creation of a key of
--     application/src/signing_key.rs. Refusals is about a creation that fails, Writes about one write, Rows
--     about what a creation leaves.
--   Application/Pages: application/src/dto/pagination.rs and service/account/read.rs. Walks is about the
--     pages one after the other, Cursors about one page.
--   Application/Actors: activitypub/{actor,collections}.rs and the outbox collection there, and the two
--     other use cases of application/src/signing_key.rs.
--   Application/UpdatePerson: activitypub/update_person.rs there.
--   Application/Projection: application/src/projection/account_projector.rs. Keeps and Polls are about a
--     whole poll, Groups about the events of one account.
--   Application/DetailProjection: the profile and the metadata projector of the same directory as one.
--     Polls is about a whole poll.
--   Kernel/Relation: kernel/src/entity/{follow,block,mute}.rs, which differ in names and in the approval
--     of a follow, as one generic type.
--   Kernel/Activity: the activities and local addresses of kernel/src/activitypub.rs, and the readers of
--     an activity's object of the inbox handlers.
--   Driver/Relations: driver/src/database/postgres/{follow,block,mute}.rs as one generic repository,
--     under the checks, unique indexes and foreign keys of migrations/. Its laws: Rows (rows against
--     relations), Approvals, Tables (what every table satisfies) with Statements (that each statement keeps
--     it), Deletion; Repositories has the named instances.
--   Driver/RemoteAccounts, Outbox: remote_account.rs and outbox_activity.rs of the same directory.
--   Application/Network: the state of the services on relations, what the outside answers, and
--     application/src/service/activitypub/{remote_actor,outbox}.rs.
--   Application/Follows: the helpers on follows, `remove_follows_between` among them.
--   Application/Blocks, Mutes, RelationLists: application/src/service/{block,mute}.rs and
--     activitypub/relations.rs there.
--   Application/FollowRequests: activitypub/outbound_{follow,unfollow}.rs there.
--   Application/Inbox: activitypub/inbox/{mod,handlers}.rs there.
--   Server/Inbox: the route of server/src/route/activitypub/inbox.rs, which puts the verifier in front of
--     the inbox, and the two helpers of server/src/api/activitypub.rs that it calls.
--   Tests: the theorems at concrete inputs.
--
-- Choices. Numbers are native naturals; an `i64` version or id is never negative, since the generator
-- yields none, and the one computation on 64 bits (extract_timestamp_ms) has its wrap-around written
-- out. Loops are structural recursion on lists. An instant is a number, compared
-- and nothing else. What the outside answers is data of the model: the record `Environment` holds the
-- relation service, the clock readings and the generated id, and `Externals` holds the id layout of the
-- ferroid crate and the calendar of the time crate, with their documented behaviour in `IsLawful`. A
-- generated version is newer than every stored one where a theorem says `IsFresh`. For the services on
-- relations the record `Outside` holds the relation service, serde_json, the clock, the generated ids,
-- and the exchange with other servers: an actor document, WebFinger and a delivery each answer with a
-- result, any result. An id in decimal has at most 19 digits, since it is an `i64`, and is printed with
-- that much fuel. A query without an order returns its rows in the order of the table.
-- The order in which the projector takes the accounts of a window, that of a HashMap, is a parameter.
-- A text of an HTTP message is the list of its characters, and stands for its bytes where the code signs
-- or hashes it. The crates that decode, hash, parse dates and urls, verify signatures, resolve names and
-- send requests are the records `Crates`, `Keys`, `Surroundings` and `Web`. The loop over the redirects
-- of a fetch has the six turns of its range. The requests about details draw their ids from
-- `DetailEnvironment`, one for each call of the generator.
--
-- Not modelled: the web server but for the inbox route, the signer, the cryptography, the HTTP of
-- deliveries and of fetched actors in the application, the clients of outside services, and the tables
-- of principals and their hosts, which have no rules of their own: of the principals the ids are kept,
-- which the links refer to. The keys that tests inject are the
-- parameter `static_actor_keys`, and the switch of a build for tests is `test_mode`; in production there
-- are no such keys, and the switch is off. One request runs at a time: the interleaving of two SQL
-- statements is not modelled, nor is a failed commit or a lost connection. A payload reads back as it
-- was written.
pub mod Prelude
pub mod Kernel
pub mod Driver
pub mod Application
pub mod Server
pub mod Tests
