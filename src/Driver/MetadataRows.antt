-- ===== src/Driver/MetadataRows.antt =====
-- driver/src/database/postgres/metadata.rs: the table of metadata, with the metadata writer of
-- projection.rs.
use text.Mathlib.Text.{◌==◌ as str_eq}
use emumet.Prelude.{
  Option, none, some, Bool, not, ◌&&◌, List, [], ◌∷◌, ◌++◌, map, ltb, find?, ◌==◌, if◌then◌else◌,
  filter, any,
}
use emumet.Kernel.Error.{ok, err, not_found, internal}
use emumet.Kernel.Exec.{Exec}
use emumet.Kernel.Account.{AccountId}
use emumet.Kernel.Metadata.{Metadata, MetadataId}

abbrev pub MetadataTable : Type 0
MetadataTable = List Metadata

unfoldable pub find_by_account_id : AccountId → Exec MetadataTable (List Metadata)
find_by_account_id account_id rows =
    (ok (filter (λ (row : Metadata). row.account_id == account_id) rows), rows)

unfoldable pub find_by_account_ids : List AccountId → Exec MetadataTable (List Metadata)
find_by_account_ids account_ids rows =
    (ok (filter (λ (row : Metadata). any (λ id. id == row.account_id) account_ids) rows), rows)

unfoldable pub delete : MetadataId → Exec MetadataTable (Unit {0})
delete id rows =
    if any (λ (row : Metadata). row.id == id) rows
    then (ok tt, filter (λ row. not (row.id == id)) rows)
    else (err not_found, rows)

unfoldable pub find_by_id : MetadataId → Exec MetadataTable (Option Metadata)
find_by_id id rows = (ok (find? (λ (row : Metadata). row.id == id) rows), rows)

unfoldable pub find_by_id_unfiltered : MetadataId → Exec MetadataTable (Option Metadata)
unfolding find_by_id
find_by_id_unfiltered id = find_by_id id

-- no other row has the unique nanoid, and the account is there
abbrev may_write : (AccountId → Bool) → Metadata → MetadataTable → Bool
may_write has_account row rows =
    not
      (any (λ (other : Metadata). not (other.id == row.id) && str_eq other.nanoid row.nanoid) rows)
    && has_account row.account_id

-- INSERT, under the primary key, the unique nanoid and the account that the row refers to
unfoldable pub create : (AccountId → Bool) → Metadata → Exec MetadataTable (Unit {0})
create has_account metadata rows =
    if not (any (λ (row : Metadata). row.id == metadata.id) rows)
      && may_write has_account metadata rows
    then (ok tt, rows ++ metadata ∷ [])
    else (err internal, rows)

-- `SET label = .., content = .., version = .. WHERE id = ..`
abbrev pub set_row : Metadata → Metadata → Metadata
set_row metadata row =
    if row.id == metadata.id
    then record row {
      label = metadata.label;
      content = metadata.content;
      version = metadata.version;
    }
    else row

unfoldable pub update : Metadata → Exec MetadataTable (Unit {0})
update metadata rows =
    if any (λ (row : Metadata). row.id == metadata.id) rows
    then (ok tt, map (set_row metadata) rows)
    else (err not_found, rows)

abbrev replace_row : Metadata → MetadataTable → MetadataTable
replace_row row [] = []
replace_row row (r ∷ rows) = (if r.id == row.id then row else r) ∷ replace_row row rows

upsert_row : (AccountId → Bool) → Metadata → Option Metadata → Exec MetadataTable (Unit {0})
upsert_row has_account row none rows =
    if may_write has_account row rows then (ok tt, rows ++ row ∷ []) else (err internal, rows)
upsert_row has_account row (some old) rows =
    if ltb old.version row.version
    then (if may_write has_account row rows
        then (ok tt, replace_row row rows)
        else (err internal, rows))
    else (ok tt, rows)

-- INSERT .. ON CONFLICT (id) DO UPDATE .. WHERE metadatas.version < EXCLUDED.version
unfoldable pub upsert : (AccountId → Bool) → Metadata → Exec MetadataTable (Unit {0})
unfolding upsert_row
upsert has_account entry rows =
    upsert_row has_account entry (find? (λ (row : Metadata). row.id == entry.id) rows) rows

-- `MetadataProjectionWriter::delete`
unfoldable pub discard : MetadataId → Exec MetadataTable (Unit {0})
discard id rows = (ok tt, filter (λ (row : Metadata). not (row.id == id)) rows)
