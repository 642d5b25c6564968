-- ===== src/Application/DetailWorld.antt =====
-- What the requests about an account's details read and write, beside the accounts: the streams and
-- the tables of profiles and of metadata, the images and the signing keys. The transaction manager of
-- driver/src/database/postgres.rs is that of these tables.
pub mod Atomic
use Prim.Native.String.{String}
use emumet.Prelude.{ℕ, suc, Option}
use emumet.Kernel.Error.{Result, ok, err, internal, ok_or}
use emumet.Kernel.Exec.{Exec}
use emumet.Kernel.Profile.{ProfileEvent}
use emumet.Kernel.Metadata.{MetadataEvent}
use emumet.Driver.EventStore.{EventTable}
use emumet.Driver.Profiles.{ProfileTable}
use emumet.Driver.MetadataRows.{MetadataTable}
use emumet.Driver.Images.{ImageTable}
use emumet.Driver.SigningKeys.{SigningKeyTable}
use emumet.Application.World.{World, Environment, roll_back}

pub record DetailWorld : Type 0 where
  pub world : World
  pub profile_events : EventTable ProfileEvent
  pub profiles : ProfileTable
  pub metadata_events : EventTable MetadataEvent
  pub metadata : MetadataTable
  pub images : ImageTable
  pub signing_keys : SigningKeyTable
  -- how many ids and nanoids were drawn
  pub drawn : ℕ

-- what the outside answers while one request runs
pub record DetailEnvironment : Type 0 where
  pub environment : Environment
  -- what the n-th call of `kernel::generate_id()` and of `Nanoid::default()` returns
  pub generated_id : ℕ → ℕ
  pub generated_nanoid : ℕ → String

-- what a rolled back transaction leaves: the serial values and the ids that it drew stay drawn
abbrev pub roll_back_details : DetailWorld → DetailWorld → DetailWorld
roll_back_details before after = record before {
  world = roll_back before.world after.world;
  profile_events = record before.profile_events { next_seq = after.profile_events.next_seq };
  metadata_events = record before.metadata_events { next_seq = after.metadata_events.next_seq };
  drawn = after.drawn;
}

module _ {A : Type 0} where
  abbrev pub on_world : Exec World A → Exec DetailWorld A
  on_world m w = let (r, world) = m w.world in (r, record w { world = world })

  abbrev pub on_profile_events : Exec (EventTable ProfileEvent) A → Exec DetailWorld A
  on_profile_events m w =
      let (r, events) = m w.profile_events in (r, record w { profile_events = events })

  abbrev pub on_profiles : Exec ProfileTable A → Exec DetailWorld A
  on_profiles m w = let (r, profiles) = m w.profiles in (r, record w { profiles = profiles })

  abbrev pub on_metadata_events : Exec (EventTable MetadataEvent) A → Exec DetailWorld A
  on_metadata_events m w =
      let (r, events) = m w.metadata_events in (r, record w { metadata_events = events })

  abbrev pub on_metadata : Exec MetadataTable A → Exec DetailWorld A
  on_metadata m w = let (r, metadata) = m w.metadata in (r, record w { metadata = metadata })

  abbrev pub on_signing_keys : Exec SigningKeyTable A → Exec DetailWorld A
  on_signing_keys m w = let (r, keys) = m w.signing_keys in (r, record w { signing_keys = keys })

  abbrev pub on_images : Exec ImageTable A → Exec DetailWorld A
  on_images m w = let (r, images) = m w.images in (r, record w { images = images })

  -- commit or roll back
  abbrev pub settle : DetailWorld → Result A → DetailWorld → Result A × DetailWorld
  settle before (ok a) after = (ok a, after)
  settle before (err e) after = (err e, roll_back_details before after)

  -- `TransactionManager::transaction`
  unfoldable pub detail_transaction : Exec DetailWorld A → Exec DetailWorld A
  detail_transaction operation w = let (r, w') = operation w in settle w r w'

-- `A::apply(&mut entity, event)?; entity.ok_or_else(..)?`
abbrev pub constructed : {A : Type 0} → Result (Unit {0}) × Option A → Result A
constructed (err e, entity) = err e
constructed (ok _, entity) = ok_or internal entity

module _ (env : DetailEnvironment) where
  -- `kernel::generate_id()`
  abbrev pub generate_id : Exec DetailWorld ℕ
  generate_id w = (ok (env.generated_id w.drawn), record w { drawn = suc w.drawn })

  -- `Nanoid::default()`
  abbrev pub generate_nanoid : Exec DetailWorld String
  generate_nanoid w = (ok (env.generated_nanoid w.drawn), record w { drawn = suc w.drawn })
