-- ===== src/Driver/SigningKeys.antt =====
-- driver/src/database/postgres/signing_key.rs: the table of signing keys. The encrypted key is
-- stored as JSON and reads back as it was written.
use Prim.Native.String.{String}
use text.Mathlib.Text.{◌==◌ as str_eq}
use emumet.Prelude.{
  Option, some, Bool, not, ◌&&◌, ◌||◌, List, [], ◌∷◌, ◌++◌, map, ◌==◌, if◌then◌else◌, filter, find?,
  any, is_none, ◌≡◌, refl,
}
use emumet.Kernel.Error.{Result, ok, err, internal, not_found, ok_or, ◌>>=◌}
use emumet.Kernel.Exec.{Exec}
use emumet.Kernel.Event.{OffsetDateTime}
use emumet.Kernel.Account.{AccountId}
use emumet.Kernel.SigningKey.{
  SigningAlgorithm, rsa2048, ed25519, display, EncryptedPrivateKey, SigningKey, SigningKeyId,
}

pub record SigningKeyRow : Type 0 where
  pub id : SigningKeyId
  pub account_id : AccountId
  pub algorithm : String
  pub encrypted_private_key : EncryptedPrivateKey
  pub public_key_pem : String
  pub key_id_uri : String
  pub created_at : OffsetDateTime
  pub revoked_at : Option OffsetDateTime

abbrev pub SigningKeyTable : Type 0
SigningKeyTable = List SigningKeyRow

-- `serde_json::from_str` of the text between quotes, under `rename_all = "lowercase"`; a text with
-- JSON escapes is never written
unfoldable pub read_algorithm : String → Result SigningAlgorithm
read_algorithm text =
    if str_eq text "rsa2048"
    then ok rsa2048
    else if str_eq text "ed25519"
    then ok ed25519
    else err internal

-- `TryFrom<SigningKeyRow> for SigningKey`
unfoldable pub signing_key_from_row : SigningKeyRow → Result SigningKey
unfolding read_algorithm
signing_key_from_row row = do
  algorithm ← read_algorithm row.algorithm
  ok (record {
    id = row.id;
    account_id = row.account_id;
    algorithm = algorithm;
    encrypted_private_key = row.encrypted_private_key;
    public_key_pem = row.public_key_pem;
    key_id_uri = row.key_id_uri;
    created_at = row.created_at;
    revoked_at = row.revoked_at;
  })

-- `rows.into_iter().map(SigningKey::try_from).collect::<Result<_, _>>()`
unfoldable pub collect_keys : List SigningKeyRow → Result (List SigningKey)
unfolding signing_key_from_row
collect_keys [] = ok []
collect_keys (row ∷ rows) =
    let rest = collect_keys rows in do key ← signing_key_from_row row; keys ← rest; ok (key ∷ keys)

unfoldable pub find_by_id : SigningKeyId → Exec SigningKeyTable SigningKey
unfolding signing_key_from_row
find_by_id id rows = (
  ok_or not_found (find? (λ (row : SigningKeyRow). row.id == id) rows) >>= signing_key_from_row,
  rows,
)

unfoldable pub find_by_account_id : AccountId → Exec SigningKeyTable (List SigningKey)
unfolding collect_keys
find_by_account_id account_id rows =
    (collect_keys (filter (λ (row : SigningKeyRow). row.account_id == account_id) rows), rows)

abbrev pub is_active_key : AccountId → SigningKeyRow → Bool
is_active_key account_id row = row.account_id == account_id && is_none row.revoked_at

unfoldable pub find_active_by_account_id : AccountId → Exec SigningKeyTable (List SigningKey)
unfolding collect_keys
find_active_by_account_id account_id rows =
    (collect_keys (filter (is_active_key account_id) rows), rows)

-- the values that `create` binds
unfoldable pub to_row : SigningKey → SigningKeyRow
unfolding display
to_row key = record {
  id = key.id;
  account_id = key.account_id;
  algorithm = display key.algorithm;
  encrypted_private_key = key.encrypted_private_key;
  public_key_pem = key.public_key_pem;
  key_id_uri = key.key_id_uri;
  created_at = key.created_at;
  revoked_at = key.revoked_at;
}

-- INSERT, under the primary key and the account that the row refers to
unfoldable pub create : (AccountId → Bool) → SigningKey → Exec SigningKeyTable (Unit {0})
unfolding to_row
create has_account key rows =
    if any (λ (row : SigningKeyRow). row.id == key.id) rows || not (has_account key.account_id)
    then (err internal, rows)
    else (ok tt, rows ++ to_row key ∷ [])

abbrev is_unrevoked : SigningKeyId → SigningKeyRow → Bool
is_unrevoked id row = row.id == id && is_none row.revoked_at

-- UPDATE .. SET revoked_at = NOW() WHERE id = $1 AND revoked_at IS NULL
unfoldable pub revoke : OffsetDateTime → SigningKeyId → Exec SigningKeyTable (Unit {0})
revoke now id rows =
    if any (is_unrevoked id) rows
    then (
      ok tt,
      map
          (λ (row : SigningKeyRow).
            if is_unrevoked id row then record row { revoked_at = some now } else row)
          rows,
    )
    else (err not_found, rows)

read_algorithm-display : (a : SigningAlgorithm) → read_algorithm (display a) ≡ ok a
unfolding read_algorithm display
read_algorithm-display rsa2048 = refl
read_algorithm-display ed25519 = refl

-- A key reads back as it was written.
pub signing_key_from_row-to_row : (key : SigningKey) → signing_key_from_row (to_row key) ≡ ok key
unfolding signing_key_from_row to_row
signing_key_from_row-to_row key = rw (read_algorithm-display key.algorithm) refl
