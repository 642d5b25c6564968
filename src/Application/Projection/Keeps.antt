-- ===== src/Application/Projection/Keeps.antt =====
-- What the writes of the projector leave: the events and the checkpoints.
use emumet.Prelude.{◌≡◌, ◌∙◌, refl, is_some, if◌then◌else◌, Option, none, some, Bool, true, false}
use emumet.Kernel.Error.{Result, ok, err}
use emumet.Kernel.Exec.{Exec, continue, ◌>>=◌, ◌>>◌}
use emumet.Kernel.Account.{Account, AccountId, AuthAccountId}
use emumet.Driver.Accounts.{upsert, link_auth_account}
use emumet.Driver.MetadataRows as MetadataRows
use emumet.Driver.Profiles as Profiles
use emumet.Driver.Relations.{find_by_source, find_followers}
use emumet.Application.Follows.{delete_each}
use emumet.Application.World.{create_relation}
use emumet.Kernel.Permission.{account_target, owner}
use emumet.Kernel.Relation.{local}
use emumet.Application.Projection.{
  ReadSide, write_projection, link_owner, send, remove_details, remove_profile, remove_metadata,
  clear_profile, clear_metadata, clear_followings, clear_followers, on_tables, on_profiles,
  on_metadata, on_follows,
}

-- the events and the checkpoints are the same
pub record SameLog (w w' : ReadSide) : Type 0 where
  pub events : w'.events ≡ w.events
  pub checkpoints : w'.checkpoints ≡ w.checkpoints

pub same_log : (w : ReadSide) → SameLog w w
same_log w = record { events = refl; checkpoints = refl }

pub SameLog-trans : {a b c : ReadSide} → SameLog a b → SameLog b c → SameLog a c
SameLog-trans h k = record {
  events = k.events ∙ h.events;
  checkpoints = k.checkpoints ∙ h.checkpoints;
}

module _ {A : Type 0} where
  -- the step leaves the events and the checkpoints
  abbrev pub Keeps : Exec ReadSide A → Type 0
  Keeps m = (w : ReadSide) → SameLog w (m w).1

module _ {A B : Type 0} where
  bind-Keeps :
      (m : Exec ReadSide A) (f : A → Exec ReadSide B)
      → Keeps m
      → ((a : A) → Keeps (f a))
      → Keeps (m >>= f)
  bind-Keeps m f h k w = go (m w).0 (m w).1 (h w)
    where
      go : (r : Result A) (s : ReadSide) → SameLog w s → SameLog w (continue r f s).1
      go (ok a) s same = SameLog-trans same (k a s)
      go (err e) s same = same

clear_profile-Keeps : (account_id : AccountId) → Keeps (clear_profile account_id)
unfolding clear_profile
clear_profile-Keeps account_id =
    bind-Keeps (on_profiles (Profiles.find_by_account_id account_id))
      (λ profile. on_profiles (remove_profile profile))
      (λ w. record { events = refl; checkpoints = refl })
      (λ _ w. record { events = refl; checkpoints = refl })

clear_metadata-Keeps : (account_id : AccountId) → Keeps (clear_metadata account_id)
unfolding clear_metadata
clear_metadata-Keeps account_id =
    bind-Keeps (on_metadata (MetadataRows.find_by_account_id account_id))
      (λ entries. on_metadata (remove_metadata entries))
      (λ w. record { events = refl; checkpoints = refl })
      (λ _ w. record { events = refl; checkpoints = refl })

clear_followings-Keeps : (account_id : AccountId) → Keeps (clear_followings account_id)
unfolding clear_followings
clear_followings-Keeps account_id =
    bind-Keeps (on_follows (find_by_source (local account_id)))
      (λ followings. on_follows (delete_each followings))
      (λ w. record { events = refl; checkpoints = refl })
      (λ _ w. record { events = refl; checkpoints = refl })

clear_followers-Keeps : (account_id : AccountId) → Keeps (clear_followers account_id)
unfolding clear_followers
clear_followers-Keeps account_id =
    bind-Keeps (on_follows (find_followers (local account_id)))
      (λ followers. on_follows (delete_each followers))
      (λ w. record { events = refl; checkpoints = refl })
      (λ _ w. record { events = refl; checkpoints = refl })

remove_details-Keeps : (account_id : AccountId) → Keeps (remove_details account_id)
unfolding remove_details
remove_details-Keeps account_id =
    bind-Keeps
      (clear_profile account_id >> clear_metadata account_id >> clear_followings account_id)
      (λ _. clear_followers account_id)
      (bind-Keeps (clear_profile account_id >> clear_metadata account_id)
        (λ _. clear_followings account_id)
        (bind-Keeps (clear_profile account_id) (λ _. clear_metadata account_id)
          (clear_profile-Keeps account_id) (λ _. clear_metadata-Keeps account_id))
        (λ _. clear_followings-Keeps account_id))
      (λ _. clear_followers-Keeps account_id)

link_owner-Keeps :
    (account_id : AccountId) (auth_id : Option AuthAccountId)
    → Keeps (link_owner account_id auth_id)
unfolding link_owner send
link_owner-Keeps account_id none = same_log
link_owner-Keeps account_id (some auth_id) =
    bind-Keeps (on_tables (link_auth_account account_id auth_id))
      (λ _. send (create_relation (account_target account_id owner) auth_id))
      (λ w. record { events = refl; checkpoints = refl })
      (λ _ w. record { events = refl; checkpoints = refl })

write_account-Keeps :
    (account_id : AccountId) (auth_id : Option AuthAccountId) (account : Account) (b : Bool)
    → Keeps (
        on_tables (upsert account)
        >> (if b then remove_details account_id else link_owner account_id auth_id))
write_account-Keeps account_id auth_id account b =
    bind-Keeps (on_tables (upsert account))
      (λ _. if b then remove_details account_id else link_owner account_id auth_id)
      (λ w. record { events = refl; checkpoints = refl }) (λ _. last b)
  where
    last :
        (b : Bool) → Keeps (if b then remove_details account_id else link_owner account_id auth_id)
    last true = remove_details-Keeps account_id
    last false = link_owner-Keeps account_id auth_id

pub write_projection-Keeps :
    (account_id : AccountId) (auth_id : Option AuthAccountId) (entity : Option Account)
    → Keeps (write_projection account_id auth_id entity)
unfolding write_projection
write_projection-Keeps account_id auth_id none w = same_log w
write_projection-Keeps account_id auth_id (some account) w =
    write_account-Keeps account_id auth_id account (is_some account.deleted_at) w
