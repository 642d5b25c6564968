-- ===== src/Driver/HttpSigning/ActorKey.antt =====
-- driver/src/http_signing/actor_key.rs: the public key in an actor document. The cache of keys that
-- tests inject is left out.
use Prim.Native.String.{String}
use emumet.Prelude.{Option, none, some, Bool, false, ◌&&◌, [], if◌then◌else◌, is_some}
use emumet.Kernel.Activity.{Value, Items, array, object, nil, cons, get, as_str}
use emumet.Kernel.Text.{chars}
use emumet.Kernel.HttpSigning.{Text, ActorPublicKey}
use emumet.Driver.HttpSigning.Texts.{same_text}
use emumet.Driver.HttpSigning.Messages.{
  Outcome, good, bad, public_key_missing, key_id_mismatch, array_without_key, not_an_object,
  pem_missing,
}

-- `Value::get`
abbrev pub member : String → Value → Option Value
member key (object fields) = get key fields
member key _ = none

-- `and_then(Value::as_str)`
abbrev str_of : Option Value → Option Text
str_of none = none
str_of (some value) = elim (as_str value) [ none ↦ none | some text ↦ some (chars text) ]

abbrev is_text : Text → Option Text → Bool
is_text text none = false
is_text text (some value) = same_text value text

abbrev unwrap_or : Text → Option Text → Text
unwrap_or default none = default
unwrap_or default (some value) = value

abbrev or : Option Value → Option Value → Option Value
or none fallback = fallback
or (some value) fallback = some value

unfoldable pub key_value_matches_key_id : Text → Value → Bool
unfolding get as_str chars same_text
key_value_matches_key_id key_id value = is_text key_id (str_of (member "id" value))

with_pem : Text → Value → Option Value → Option Text → Outcome ActorPublicKey
unfolding get as_str chars
with_pem key_id value owner_fallback none = bad pem_missing
with_pem key_id value owner_fallback (some pem) = good (record {
  id = unwrap_or key_id (str_of (member "id" value));
  owner = unwrap_or [] (str_of (or (member "owner" value) owner_fallback));
  public_key_pem = pem;
})

unfoldable pub public_key_value_to_actor_key : Text → Value → Option Value → Outcome ActorPublicKey
unfolding with_pem get as_str chars
public_key_value_to_actor_key key_id value owner_fallback =
    with_pem key_id value owner_fallback (str_of (member "publicKeyPem" value))

-- the first key of an array that has the id
unfoldable pub find_key : Text → Items → Option Value
unfolding key_value_matches_key_id
find_key key_id nil = none
find_key key_id (cons value rest) =
    let found = find_key key_id rest in
    if key_value_matches_key_id key_id value then some value else found

from_public_key : Text → Option Value → Option Value → Outcome ActorPublicKey
unfolding key_value_matches_key_id public_key_value_to_actor_key find_key
from_public_key key_id document_id none = bad public_key_missing
from_public_key key_id document_id (some (object fields)) =
    if key_value_matches_key_id key_id (object fields)
    then public_key_value_to_actor_key key_id (object fields) document_id
    else bad key_id_mismatch
from_public_key key_id document_id (some (array keys)) = elim (find_key key_id keys) [
  | none ↦ bad array_without_key
  | some value ↦ public_key_value_to_actor_key key_id value document_id
]
from_public_key key_id document_id (some _) = bad not_an_object

unfoldable pub actor_public_key_from_json : Text → Value → Outcome ActorPublicKey
unfolding key_value_matches_key_id public_key_value_to_actor_key from_public_key get
actor_public_key_from_json key_id document =
    if is_some (member "publicKeyPem" document) && key_value_matches_key_id key_id document
    then public_key_value_to_actor_key key_id document (member "owner" document)
    else from_public_key key_id (member "id" document) (member "publicKey" document)
