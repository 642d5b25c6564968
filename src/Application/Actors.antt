-- ===== src/Application/Actors.antt =====
-- application/src/service/activitypub/{actor,collections}.rs, the collection of activitypub/outbox.rs,
-- and the two other use cases of application/src/signing_key.rs.
use Prim.Native.String.{String}
use emumet.Prelude.{ℕ, Option, none, some, Bool, List, [], ◌∷◌, ◌++◌, filter, is_some, length}
use emumet.Kernel.Error.{Result, ok, internal, not_found, ok_or, cons_ok}
use emumet.Kernel.Exec.{Exec, pure, lift, ◌>>=◌, ◌>>◌}
use emumet.Kernel.Text.{validate_account_name}
use emumet.Kernel.Account.{Account, AccountId}
use emumet.Kernel.Activity.{Value, concat}
use emumet.Kernel.Actor.{
  Actor, actor, builder, actor_id, outbox, followers, following, OrderedCollection, collection,
  with_ordered_items, WebFingerResponse,
}
use emumet.Kernel.Profile.{Profile}
use emumet.Kernel.Relation.{local, Follow}
use emumet.Kernel.SigningKey.{Cipher, SigningAlgorithm, SigningKey}
use emumet.Driver.Accounts.{find_by_id, find_by_name, find_by_nanoid}
use emumet.Driver.Images.{find_by_ids}
use emumet.Driver.Outbox.{OutboxActivity}
use emumet.Driver.Outbox as Outbox
use emumet.Driver.Profiles as Profiles
use emumet.Driver.Relations.{find_by_source, find_followers}
use emumet.Driver.SigningKeys as SigningKeys
use emumet.Application.World.{on_tables}
use emumet.Application.DetailWorld.{
  DetailWorld, DetailEnvironment, on_world, on_profiles, on_images, on_signing_keys,
}
use emumet.Application.DetailUpdate.{url_of, ids_of}
use emumet.Application.Network.{Network, Outside, on_accounts, on_follows, on_outbox}

abbrev first_key : List SigningKey → Option SigningKey
first_key [] = none
first_key (key ∷ keys) = some key

-- the field of a profile that there may not be
abbrev field_of : {A : Type 0} → (Profile → Option A) → Option Profile → Option A
field_of field none = none
field_of field (some profile) = field profile

module _ (env : DetailEnvironment) (public_base_url : String) where
  -- `find_active_by_account_id(..).await?.into_iter().next().ok_or_else(..)`
  unfoldable pub active_key : AccountId → Exec DetailWorld SigningKey
  active_key account_id = do
    keys ← on_signing_keys (SigningKeys.find_active_by_account_id account_id)
    lift (ok_or not_found (first_key keys))

  unfoldable pub get_actor : String → Exec DetailWorld Actor
  unfolding active_key actor builder
  get_actor account_nanoid = do
    visible ← on_world (on_tables (find_by_nanoid env.environment.queried_at account_nanoid))
    account ← lift (ok_or not_found visible)
    profile ← on_profiles (Profiles.find_by_account_id account.id)
    key ← active_key account.id
    images ← on_images (
        find_by_ids
          (ids_of (field_of (λ p. p.icon) profile) ++ ids_of (field_of (λ p. p.banner) profile)))
    pure (
        actor (builder public_base_url account.nanoid) account.name
          (field_of (λ p. p.display_name) profile) (field_of (λ p. p.summary) profile)
          (record {
            icon_url = url_of images (field_of (λ p. p.icon) profile);
            banner_url = url_of images (field_of (λ p. p.banner) profile);
          })
          key.public_key_pem key.key_id_uri)

  -- the name, and the domain in lower case, as the route gives them
  unfoldable pub get_webfinger :
      (String → String) → String → String → Exec DetailWorld WebFingerResponse
  unfolding validate_account_name builder actor_id
  get_webfinger to_ascii_lowercase account_name domain = do
    lift (validate_account_name account_name)
    visible ← on_world (on_tables (find_by_name env.environment.queried_at account_name))
    account ← lift (ok_or not_found visible)
    let url : String = actor_id (builder public_base_url account.nanoid)
    pure (record {
      subject = concat ("acct:" ∷ account.name ∷ "@" ∷ to_ascii_lowercase domain ∷ []);
      links = some (record { rel = "self"; type_ = "application/activity+json"; href = url } ∷ []);
      aliases = some (url ∷ []);
    })

  -- the id, the owner and the key of `PublicKeyInfo`
  unfoldable pub get_public_key_info :
      AccountId → String → Exec DetailWorld (String × String × String)
  unfolding active_key builder actor_id
  get_public_key_info account_id nanoid = do
    key ← active_key account_id
    pure (key.key_id_uri, actor_id (builder public_base_url nanoid), key.public_key_pem)

  -- `sign`, given the http signer of the private key, the key's address and its algorithm
  unfoldable pub sign :
      {Response : Type 0}
      → Cipher
      → (String → String → SigningAlgorithm → Result Response)
      → AccountId
      → Exec DetailWorld Response
  unfolding active_key
  sign cipher signer account_id = do
    key ← active_key account_id
    password ← lift cipher.get_password
    private_key_pem ← lift (cipher.decrypt key.encrypted_private_key password)
    lift (signer private_key_pem key.key_id_uri key.algorithm)

abbrev pub is_approved : Follow → Bool
is_approved follow = is_some follow.approved_at

module _ (env : Outside) where
  -- `account_query().find_by_id(..)`, or `NotFound`
  unfoldable pub find_visible : AccountId → Exec Network Account
  find_visible account_id = do
    account ← on_accounts (find_by_id env.queried_at account_id)
    lift (ok_or not_found account)

  unfoldable pub get_followers_collection : AccountId → Exec Network OrderedCollection
  unfolding find_visible followers builder collection
  get_followers_collection account_id = do
    account ← find_visible account_id
    follows ← on_follows (λ _. find_followers (local account_id))
    pure (
        collection (followers (builder env.public_base_url account.nanoid))
          (length (filter is_approved follows)) none none)

  unfoldable pub get_following_collection : AccountId → Exec Network OrderedCollection
  unfolding find_visible following builder collection
  get_following_collection account_id = do
    account ← find_visible account_id
    follows ← on_follows (λ _. find_by_source (local account_id))
    pure (
        collection (following (builder env.public_base_url account.nanoid))
          (length (filter is_approved follows)) none none)

  -- each stored text is read as JSON; `from_str` is serde_json's
  unfoldable pub read_items : (String → Option Value) → List OutboxActivity → Result (List Value)
  read_items from_str [] = ok []
  read_items from_str (activity ∷ activities) =
      cons_ok (ok_or internal (from_str activity.object_json)) (read_items from_str activities)

  unfoldable pub get_outbox_collection :
      (String → Option Value) → AccountId → ℕ → Option ℕ → Exec Network OrderedCollection
  unfolding find_visible read_items outbox builder with_ordered_items
  get_outbox_collection from_str account_id limit cursor = do
    account ← find_visible account_id
    activities ← on_outbox (Outbox.find_by_account_id account_id limit cursor)
    total_items ← on_outbox (Outbox.count_by_account_id account_id)
    items ← lift (read_items from_str activities)
    pure
        (with_ordered_items (outbox (builder env.public_base_url account.nanoid)) total_items items)
