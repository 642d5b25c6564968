-- ===== src/Tests/Network.antt =====
-- Two local accounts, a remote one and their relations, for the tests.
use Prim.Native.String.{String}
use emumet.Prelude.{◌≡◌, refl, none, some, true, List, [], ◌∷◌}
use emumet.Kernel.Error.{Result, ok}
use emumet.Kernel.Account.{Account}
use emumet.Kernel.Account.Status
use emumet.Kernel.Activity.{addressed, string}
use emumet.Kernel.Relation.{Follow, Block, local, remote, new}
use emumet.Kernel.Permission.{check_permission, account_sign, satisfies}
use emumet.Driver.Accounts as Accounts
use emumet.Driver.Accounts.{find_by_nanoid, account_from_row}
use emumet.Driver.Outbox.{Outbox}
use emumet.Driver.Relations.Tables.{IsValid}
use emumet.Driver.RemoteAccounts.{RemoteAccount, RemoteTable}
use emumet.Driver.RemoteAccounts as RemoteAccounts
use emumet.Application.Network.{Network, Outside, ResolvedRemoteActor, upsert_remote_account}
use emumet.Application.Blocks.Outcomes.{Shows, answer}
use emumet.Tests.Fixture.{alice}

abbrev pub author : Account
author = alice Status.active none 10

abbrev pub bob : Account
bob = record author { id = 8; name = "bob"; nanoid = "b1" }

abbrev pub carol_url : String
carol_url = "https://b.example/c"

abbrev pub carol_actor : ResolvedRemoteActor
carol_actor = record {
  acct = "c@b.example";
  url = "https://b.example/c";
  inbox_url = some "https://b.example/c/inbox";
  public_key_pem = none;
}

abbrev pub carol : RemoteAccount
carol = record {
  id = 4;
  acct = "c@b.example";
  url = "https://b.example/c";
  icon_id = none;
  inbox_url = some "https://b.example/c/inbox";
  public_key_pem = none;
}

abbrev pub alice_url : String
alice_url = "https://a.example/ap/accounts/a1"

-- the other server takes every request or refuses it
abbrev pub outside : Result (Unit {0}) → Outside
outside answer = record {
  check = λ req. ok true;
  public_base_url = "https://a.example/";
  serde = record {
    from_value = λ value. some (addressed "" "Follow" alice_url (string carol_url) carol_url);
    to_value = λ activity. ok (string activity.id);
    to_string = λ activity. ok activity.id;
  };
  resolve_remote_actor = λ url. ok carol_actor;
  resolve_remote_webfinger = λ user domain. ok carol_actor;
  deliver = λ delivery. answer;
  describe = λ e. "error";
  queried_at = 1000;
  approved_at = 1001;
  stored_at = 1002;
  marked_at = 1003;
  remote_account_id = 5;
  relation_id = 40;
  activity_id = 41;
}

abbrev pub env : Outside
env = outside (ok tt)

abbrev pub outbox : Outbox
outbox = record { rows = []; next_id = 1 }

abbrev pub network : Network
network = record {
  accounts = record {
    accounts = Accounts.to_row author ∷ Accounts.to_row bob ∷ [];
    links = [];
    auth_accounts = [];
  };
  remote_accounts = carol ∷ [];
  follows = [];
  blocks = [];
  mutes = [];
  outbox = outbox;
  deliveries = [];
}

-- bob follows alice, alice asks to follow bob, and carol follows bob
abbrev pub follows : List Follow
follows =
    record { id = 1; source = local 8; destination = local 7; approved_at = some 20 }
    ∷ record { id = 2; source = local 7; destination = local 8; approved_at = none }
    ∷ record { id = 3; source = remote 4; destination = local 8; approved_at = some 30 }
    ∷ []

-- carol blocks bob
abbrev pub blocks : List Block
blocks = record { id = 5; source = remote 4; destination = local 8; approved_at = tt } ∷ []

pub follows-IsValid : IsValid follows
unfolding new
follows-IsValid = ((refl, (refl, (refl, tt))), ((refl, (refl, tt)), ((refl, tt), (tt, tt))))

pub blocks-IsValid : IsValid blocks
unfolding new
blocks-IsValid = ((refl, tt), (tt, tt))

pub alice-Shows : Shows env "a1" author network
unfolding find_by_nanoid account_from_row Accounts.to_row
alice-Shows = refl

pub bob-Shows : Shows env "b1" bob network
unfolding find_by_nanoid account_from_row Accounts.to_row
bob-Shows = refl

pub may_sign : check_permission env.check (account_sign author.id) ≡ ok tt
unfolding check_permission account_sign satisfies
may_sign = refl

pub carol_upserted :
    upsert_remote_account env carol_actor network.remote_accounts ≡ (ok carol, carol ∷ [])
unfolding upsert_remote_account RemoteAccounts.find_by_url RemoteAccounts.update
carol_upserted = refl
