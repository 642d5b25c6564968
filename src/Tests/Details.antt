-- ===== src/Tests/Details.antt =====
-- Requests about accounts and their details.
use Prim.Native.String.{String}
use emumet.Prelude.{ℕ, ◌⊎◌, ◌≡◌, refl, arith, none, some, true, false, List, [], ◌∷◌, map, ◌+◌}
use emumet.Prelude.Sort.{sort_by_key}
use emumet.Kernel.Error.{KernelError, Result, ok, err, not_found}
use emumet.Kernel.Exec.{Exec}
use emumet.Kernel.FieldAction.{unchanged, clear, set}
use emumet.Kernel.Account.{Account, AccountId}
use emumet.Kernel.Account.Status
use emumet.Kernel.Activity.{Activity, activitystreams_context}
use emumet.Kernel.Metadata.{Metadata}
use emumet.Kernel.Permission.{owner, account_target}
use emumet.Kernel.SigningKey.{Cipher, rsa2048}
use emumet.Driver.Accounts.{AccountTables}
use emumet.Driver.Accounts as Accounts
use emumet.Application.Details.{UpdateAccountDto, AccountFieldDto}
use emumet.Application.DetailWorld.{DetailWorld, DetailEnvironment}
use emumet.Application.DetailWorld.Atomic.{SameRows}
use emumet.Application.AccountDto.{AccountDto, CreateAccountDto}
use emumet.Application.FieldUpdates.{plan_field_updates}
use emumet.Application.FieldUpdates.Plan.{apply_plan, paired, stored, apply_plan-plan_field_updates}
use emumet.Application.DetailUpdate.{update_account_detail}
use emumet.Application.DetailUpdate.Atomicity.{update_account_detail-SameRows}
use emumet.Application.Creation.{create_account, create_rows}
use emumet.Application.Creation.Rows.{IsCreated, create_account_lem}
use emumet.Application.Pages.{account_page, next}
use emumet.Application.Pages.Walks.{walk, walk-sort_by_key}
use emumet.Application.Pages.Cursors.{account_page-hidden_cursor}
use emumet.Application.UpdatePerson.{tell_followers}
use emumet.Application.UpdatePerson.Recipients.{
  delivered, delivery_to, recipients, tell_followers-recipients,
}
use emumet.Tests.Fixture.{alice, born, world}
use emumet.Tests.Fixture as Fixture
use emumet.Tests.Network.{author, bob, network, follows}
use emumet.Tests.Network as Network

abbrev field : ℕ → String → Metadata
field id label = record {
  id = id;
  account_id = 7;
  label = label;
  content = "c";
  version = 10;
  nanoid = "m";
}

abbrev submitted : String → AccountFieldDto
submitted label = record { label = label; content = "c" }

abbrev ids : ℕ → ℕ
ids n = 70 + n

apply_plan-plan_field_updates_example :
    apply_plan ids
      (plan_field_updates (field 1 "a" ∷ field 2 "b" ∷ []) (submitted "x" ∷ []))
      (map stored (field 1 "a" ∷ field 2 "b" ∷ []))
    ≡ paired ids (field 1 "a" ∷ field 2 "b" ∷ []) (submitted "x" ∷ [])
apply_plan-plan_field_updates_example =
    apply_plan-plan_field_updates ids (field 1 "a" ∷ field 2 "b" ∷ []) (submitted "x" ∷ [])
      ((refl, tt), (tt, tt))

abbrev numbers : List ℕ
numbers = 5 ∷ 3 ∷ 9 ∷ 4 ∷ 8 ∷ []

abbrev number : ℕ → ℕ
number n = n

walk-sort_by_key_example : walk number numbers 1 6 none ≡ sort_by_key number numbers
unfolding sort_by_key
walk-sort_by_key_example =
    walk-sort_by_key number numbers 1 6
      (
        (omega arith, (omega arith, (omega arith, (omega arith, tt)))),
        (
          (omega arith, (omega arith, (omega arith, tt))),
          ((omega arith, (omega arith, tt)), ((omega arith, tt), (tt, tt))),
        ),
      )
      (omega arith)

-- alice is banned, bob is not
abbrev tables : AccountTables
tables = record {
  accounts = Accounts.to_row (alice (Status.banned "spam" 20) none 11) ∷ Accounts.to_row bob ∷ [];
  links = (7, 3) ∷ (8, 3) ∷ [];
  auth_accounts = 3 ∷ [];
}

account_page-hidden_cursor_example :
    account_page 1000 3 (record { limit = 1; cursor = some "a1"; direction = next }) tables
    ≡ account_page 1000 3 (record { limit = 1; cursor = none; direction = next }) tables
unfolding Accounts.to_row
account_page-hidden_cursor_example = account_page-hidden_cursor 1000 3 1 "a1" next tables refl

abbrev env : DetailEnvironment
env = record { environment = Fixture.env; generated_id = λ n. 60 + n; generated_nanoid = λ n. "n" }

-- alice with her stream, and no profile
abbrev details : DetailWorld
details = record {
  world = world author (born ∷ []);
  profile_events = record { rows = []; next_seq = 1 };
  profiles = [];
  metadata_events = record { rows = []; next_seq = 1 };
  metadata = [];
  images = [];
  signing_keys = [];
  drawn = 0;
}

abbrev dto : UpdateAccountDto
dto = record {
  account_nanoid = "a1";
  is_bot = set true;
  display_name = set "Alice";
  summary = clear;
  icon_url = unchanged;
  banner_url = unchanged;
  fields = some (submitted "site" ∷ []);
}

abbrev deliver : AccountId → String → Exec DetailWorld (Unit {0})
deliver id nanoid w = (ok tt, w)

-- the profile is looked up behind the change of the bot flag
no_profile : (update_account_detail env deliver dto details).0 ≡ err not_found
unfolding update_account_detail Accounts.to_row emumet.Kernel.Text.chars
    emumet.Kernel.Text.validate_display_name emumet.Kernel.Text.validate_label
    emumet.Kernel.Text.validate_content emumet.Kernel.Permission.check_permission
    emumet.Kernel.Permission.satisfies emumet.Kernel.Permission.account_edit
    emumet.Application.Aggregate.load emumet.Application.Aggregate.find_unfiltered
    emumet.Driver.Repository.account_repository emumet.Driver.Repository.repository
    emumet.Driver.EventStore.find_by_id emumet.Kernel.Rehydrated.from_events
    emumet.Kernel.Rehydrated.fold emumet.Kernel.Account.account_applier emumet.Kernel.Account.apply
    emumet.Kernel.Id.from_timestamp_ms emumet.Kernel.Id.extract_timestamp_ms
    emumet.Driver.EventStore.persist_and_transform emumet.Kernel.Account.update
    emumet.Driver.Accounts.Statements.update emumet.Driver.Profiles.find_by_account_id
    emumet.Application.Details.validate_update_account_dto
    emumet.Application.Details.validate_fields emumet.Kernel.Text.validate_summary
    emumet.Application.DetailUpdate.change_details emumet.Application.DetailUpdate.update_is_bot
    emumet.Application.DetailUpdate.save_account emumet.Application.DetailUpdate.apply_is_bot
    emumet.Application.DetailWorld.detail_transaction emumet.Driver.EventStore.persist
    emumet.Driver.EventStore.persist_internal emumet.Driver.EventStore.insert
    emumet.Driver.EventStore.execute emumet.Driver.EventStore.max_version Accounts.account_from_row
    Accounts.find_by_nanoid_unfiltered
no_profile = refl

update_account_detail-SameRows_example :
    SameRows details (update_account_detail env deliver dto details).1
update_account_detail-SameRows_example =
    update_account_detail-SameRows env deliver dto details not_found no_profile

abbrev cipher : Cipher
cipher = record {
  get_password = ok "password";
  generate_raw =
      ok (record { public_key_pem = "public"; private_key_pem = "private"; algorithm = rsa2048 });
  encrypt = λ key password algorithm.
      ok (record {
        ciphertext = "ciphertext";
        nonce = "nonce";
        salt = "salt";
        algorithm = algorithm;
      });
  decrypt = λ key password. ok "private";
}

abbrev new_account : CreateAccountDto
new_account = record { name = "dora"; is_bot = false }

abbrev dora : Account
dora = record {
  id = 60;
  name = "dora";
  is_bot = false;
  status = Status.active;
  deleted_at = none;
  version = 62;
  nanoid = "n";
  created_at = 1767225600000000000;
}

abbrev rows_of : Result Account × DetailWorld
rows_of = create_rows env cipher "https://a.example" 3 new_account details

-- the account, its profile and its key are written
dora-created : rows_of ≡ (ok dora, rows_of.1)
unfolding create_rows emumet.Application.Creation.create_account_row
    emumet.Application.Creation.create_profile_row emumet.Application.Creation.create_signing_key
    emumet.Application.DetailUpdate.save_account emumet.Application.DetailUpdate.save_profile
    emumet.Driver.Repository.account_repository emumet.Driver.Repository.profile_repository
    emumet.Driver.Repository.repository emumet.Kernel.Account.account_applier
    emumet.Kernel.Account.apply emumet.Kernel.Account.create emumet.Kernel.Id.from_timestamp_ms
    emumet.Kernel.Id.extract_timestamp_ms emumet.Driver.EventStore.persist_and_transform
    emumet.Driver.EventStore.persist emumet.Driver.EventStore.persist_internal
    emumet.Driver.EventStore.insert emumet.Driver.EventStore.execute
    emumet.Driver.EventStore.max_version emumet.Driver.Accounts.Statements.create
    emumet.Driver.Accounts.link_auth_account emumet.Driver.Profiles.create
    emumet.Kernel.Profile.create emumet.Kernel.Profile.apply emumet.Driver.SigningKeys.create
    emumet.Kernel.SigningKey.generate emumet.Kernel.Actor.key_id emumet.Kernel.Actor.builder
    Accounts.to_row
dora-created = refl

create_account_lem_example :
    let s : Result AccountDto × DetailWorld =
      create_account env cipher "https://a.example" 3 new_account details in
    ((e : KernelError) × (s.0 ≡ err e) × SameRows details s.1)
    ⊎ IsCreated env cipher "https://a.example" 3 details s
create_account_lem_example = create_account_lem env cipher "https://a.example" 3 new_account details

abbrev activity : Activity
activity = record {
  context = activitystreams_context;
  id = "u";
  type_ = "Update";
  actor = "https://a.example/ap/accounts/b1";
  object = none;
  target = none;
  to = none;
  cc = none;
}

tell_followers-recipients_example : tell_followers Network.env 8 activity follows network ≡ (
  ok tt,
  delivered Network.env 8 activity
      (map (delivery_to Network.env 8 activity) (recipients network.remote_accounts follows))
      network,
)
tell_followers-recipients_example = tell_followers-recipients Network.env 8 activity follows network
