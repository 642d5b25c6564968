-- ===== src/Tests/Fixture.antt =====
-- An account, its stream and a request, for the tests.
use emumet.Prelude.{ℕ, ◌+◌, ◌*◌, ◌/◌, ◌-◌, ◌^◌, Option, some, true, false, List, [], ◌∷◌}
use emumet.Kernel.Error.{ok}
use emumet.Kernel.Event.{OffsetDateTime, EventVersion}
use emumet.Kernel.Id.{Externals}
use emumet.Kernel.Rehydrated.{Rehydrated}
use emumet.Kernel.Account.{Account, AccountEvent, AccountStatus, created}
use emumet.Driver.EventStore.{SeqEvent, EventTable}
use emumet.Driver.Accounts.{to_row}
use emumet.Application.World.{World, Environment}

-- instants in nanoseconds
abbrev pub externals : Externals
externals = record {
  timestamp_shift = 22;
  timestamp_mask = 2 ^ 41 - 1;
  from_unix_timestamp = λ secs. some (secs * 1000000000);
  replace_nanosecond = λ nanos t. some (t / 1000000000 * 1000000000 + nanos);
}

abbrev pub env : Environment
env = record {
  externals = externals;
  check = λ req. ok true;
  respond = λ request. ok tt;
  queried_at = 1000;
  checked_at = 1001;
  commanded_at = 1002;
  replayed_at = λ n. 1000 + n;
  generated = 50;
}

abbrev pub row : ℕ → EventVersion → AccountEvent → SeqEvent AccountEvent
row seq version event = record {
  seq = seq;
  envelope = record { id = 7; event = event; version = version };
}

abbrev pub born : SeqEvent AccountEvent
born = row 1 10 (created "alice" false "a1" 3)

abbrev pub alice : AccountStatus → Option OffsetDateTime → EventVersion → Account
alice status deleted_at version = record {
  id = 7;
  name = "alice";
  is_bot = false;
  status = status;
  deleted_at = deleted_at;
  version = version;
  nanoid = "a1";
  created_at = 1767225600000000000;
}

abbrev pub loaded : Account → Rehydrated Account
loaded account = record { aggregate = account; version = account.version }

abbrev pub table : List (SeqEvent AccountEvent) → EventTable AccountEvent
table rows = record { rows = rows; next_seq = 9 }

-- a read model that shows the account, and its stream
abbrev pub world : Account → List (SeqEvent AccountEvent) → World
world account rows = record {
  events = table rows;
  tables = record { accounts = to_row account ∷ []; links = (7, 3) ∷ []; auth_accounts = 3 ∷ [] };
  calls = [];
}
