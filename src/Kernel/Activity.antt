-- ===== src/Kernel/Activity.antt =====
-- kernel/src/activitypub.rs and application/src/service/activitypub.rs: activities, JSON values and
-- the addresses of local actors. The crate serde_json, which turns activities into values and texts
-- and back, is a parameter.
use Prim.Native.Char.{code}
use Prim.Native.String.{String}
use Prim.Native.String as String
use text.Mathlib.Text.{◌==◌ as str_eq}
use emumet.Prelude.{
  ℕ, zero, suc, ◌/◌, ◌%◌, Option, none, some, Bool, true, false, ◌&&◌, List, [], ◌∷◌, ◌==◌, ltb,
  if◌then◌else◌,
}
use emumet.Kernel.Error.{Result, rejected, ensure}

-- `serde_json::Value`; a number is its text
mutual
  pub data Value : Type 0 where
    null : Value
    bool : Bool → Value
    number string : String → Value
    array : Items → Value
    object : Fields → Value

  pub data Items : Type 0 where
    nil : Items
    cons : Value → Items → Items

  pub data Fields : Type 0 where
    end : Fields
    field : String → Value → Fields → Fields

-- the member of a map
unfoldable pub get : String → Fields → Option Value
get key end = none
get key (field name value rest) =
    let found = get key rest in if str_eq name key then some value else found

unfoldable pub as_str : Value → Option String
as_str (string value) = some value
as_str _ = none

pub record Activity : Type 0 where
  pub context : Option Value
  pub id : String
  pub type_ : String
  pub actor : String
  pub object : Option Value
  pub target : Option Value
  pub to : Option (List String)
  pub cc : Option (List String)

-- what the source uses of serde_json
pub record Serde : Type 0 where
  pub from_value : Value → Option Activity
  pub to_value : Activity → Result Value
  pub to_string : Activity → Result String

-- `format!` of several texts
abbrev pub concat : List String → String
concat [] = ""
concat (s ∷ ss) = String.◌++◌ s (concat ss)

abbrev is_empty : String → Bool
is_empty String.[] = true
is_empty (String.◌∷◌ c s) = false

-- `trim_end_matches('/')`
unfoldable pub trim_end_slashes : String → String
trim_end_slashes String.[] = ""
trim_end_slashes (String.◌∷◌ c s) =
    let rest = trim_end_slashes s in
    if (code c == b'/') && is_empty rest then "" else String.◌∷◌ c rest

abbrev digit : ℕ → String
digit zero = "0"
digit (suc zero) = "1"
digit (suc (suc zero)) = "2"
digit (suc (suc (suc zero))) = "3"
digit (suc (suc (suc (suc zero)))) = "4"
digit (suc (suc (suc (suc (suc zero))))) = "5"
digit (suc (suc (suc (suc (suc (suc zero)))))) = "6"
digit (suc (suc (suc (suc (suc (suc (suc zero))))))) = "7"
digit (suc (suc (suc (suc (suc (suc (suc (suc zero)))))))) = "8"
digit _ = "9"

decimal_from : ℕ → ℕ → String
decimal_from zero n = digit n
decimal_from (suc fuel) n =
    let front = decimal_from fuel (n / 10) in
    if ltb n 10 then digit n else String.◌++◌ front (digit (n % 10))

-- `to_string` of an id: an `i64` has at most 19 digits
unfoldable pub decimal : ℕ → String
unfolding decimal_from
decimal = decimal_from 18

-- `ActorUrlBuilder::new(base, nanoid).actor_id()`
unfoldable pub local_actor_url : String → String → String
unfolding trim_end_slashes
local_actor_url base nanoid =
    concat (trim_end_slashes base ∷ "/" ∷ "ap/accounts" ∷ "/" ∷ nanoid ∷ [])

-- `format!("{}/activities/{}", base.trim_end_matches('/'), id)`
unfoldable pub activity_url : String → ℕ → String
unfolding trim_end_slashes decimal
activity_url base id = concat (trim_end_slashes base ∷ "/activities/" ∷ decimal id ∷ [])

abbrev pub activitystreams_context : Option Value
activitystreams_context = some (string "https://www.w3.org/ns/activitystreams")

-- the activity that a local actor addresses to one remote actor
abbrev pub addressed : String → String → String → Value → String → Activity
addressed id type_ actor value recipient = record {
  context = activitystreams_context;
  id = id;
  type_ = type_;
  actor = actor;
  object = some value;
  target = none;
  to = some (recipient ∷ []);
  cc = none;
}

abbrev id_of : Option Value → Option String
id_of (some value) = as_str value
id_of none = none

-- `activity_object_id`: the object is an id, or has one
object_id_of : Option Value → Option String
object_id_of (some (string value)) = some value
object_id_of (some (object map)) = id_of (get "id" map)
object_id_of _ = none

unfoldable pub activity_object_id : Activity → Option String
unfolding object_id_of as_str get
activity_object_id activity = object_id_of activity.object

abbrev of_type : String → Option Activity → Option Activity
of_type type_ none = none
of_type type_ (some activity) = if str_eq activity.type_ type_ then some activity else none

nested_of : Serde → Option Value → Option Activity
nested_of serde none = none
nested_of serde (some value) = serde.from_value value

-- `undo_follow_object`, `undo_block_object` and the Follow inside of an Accept
unfoldable pub nested_activity : Serde → String → Activity → Option Activity
unfolding nested_of
nested_activity serde type_ activity = of_type type_ (nested_of serde activity.object)

unfoldable pub ensure_local_actor_matches : String → String → String → Result (Unit {0})
unfolding trim_end_slashes local_actor_url
ensure_local_actor_matches base nanoid object_id =
    ensure (str_eq (trim_end_slashes object_id) (local_actor_url base nanoid)) rejected
