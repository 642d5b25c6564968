-- ===== src/Driver/Profiles.antt =====
-- driver/src/database/postgres/profile.rs: the table of profiles, with the profile writer of
-- projection.rs.
use text.Mathlib.Text.{◌==◌ as str_eq}
use emumet.Prelude.{
  Option, none, some, Bool, true, not, ◌&&◌, ◌||◌, List, [], ◌∷◌, ◌++◌, map, ltb, ◌==◌,
  if◌then◌else◌, filter, find?, any,
}
use emumet.Kernel.Error.{ok, err, not_found, internal}
use emumet.Kernel.Exec.{Exec}
use emumet.Kernel.Account.{AccountId}
use emumet.Kernel.Profile.{Profile, ProfileId, ImageId}

abbrev pub ProfileTable : Type 0
ProfileTable = List Profile

unfoldable pub find_by_account_id : AccountId → Exec ProfileTable (Option Profile)
find_by_account_id account_id rows =
    (ok (find? (λ (row : Profile). row.account_id == account_id) rows), rows)

unfoldable pub find_by_account_ids : List AccountId → Exec ProfileTable (List Profile)
find_by_account_ids account_ids rows =
    (ok (filter (λ (row : Profile). any (λ id. id == row.account_id) account_ids) rows), rows)

unfoldable pub delete : ProfileId → Exec ProfileTable (Unit {0})
delete id rows =
    if any (λ (row : Profile). row.id == id) rows
    then (ok tt, filter (λ row. not (row.id == id)) rows)
    else (err not_found, rows)

unfoldable pub find_by_id : ProfileId → Exec ProfileTable (Option Profile)
find_by_id id rows = (ok (find? (λ (row : Profile). row.id == id) rows), rows)

unfoldable pub find_by_id_unfiltered : ProfileId → Exec ProfileTable (Option Profile)
unfolding find_by_id
find_by_id_unfiltered id = find_by_id id

-- the rows that the foreign keys refer to
pub record References : Type 0 where
  pub has_account : AccountId → Bool
  pub has_image : ImageId → Bool

-- another row has the unique account or nanoid
abbrev clashes : Profile → Profile → Bool
clashes row other =
    not (other.id == row.id)
    && (other.account_id == row.account_id || str_eq other.nanoid row.nanoid)

abbrev refers : (ImageId → Bool) → Option ImageId → Bool
refers has none = true
refers has (some id) = has id

abbrev may_write : References → Profile → ProfileTable → Bool
may_write keys row rows =
    not (any (clashes row) rows)
    && keys.has_account row.account_id
    && refers keys.has_image row.icon
    && refers keys.has_image row.banner

-- INSERT, under the primary key and the constraints of `may_write`
unfoldable pub create : References → Profile → Exec ProfileTable (Unit {0})
create keys profile rows =
    if not (any (λ (row : Profile). row.id == profile.id) rows) && may_write keys profile rows
    then (ok tt, rows ++ profile ∷ [])
    else (err internal, rows)

-- `SET display = .., summary = .., icon_id = .., banner_id = .., version = .. WHERE id = ..`
abbrev pub set_row : Profile → Profile → Profile
set_row profile row =
    if row.id == profile.id
    then record row {
      display_name = profile.display_name;
      summary = profile.summary;
      icon = profile.icon;
      banner = profile.banner;
      version = profile.version;
    }
    else row

-- a row is only refused if there is one to write
unfoldable pub update : References → Profile → Exec ProfileTable (Unit {0})
update keys profile rows =
    if any (λ (row : Profile). row.id == profile.id) rows
    then (if refers keys.has_image profile.icon && refers keys.has_image profile.banner
        then (ok tt, map (set_row profile) rows)
        else (err internal, rows))
    else (err not_found, rows)

abbrev replace_row : Profile → ProfileTable → ProfileTable
replace_row row [] = []
replace_row row (r ∷ rows) = (if r.id == row.id then row else r) ∷ replace_row row rows

upsert_row : References → Profile → Option Profile → Exec ProfileTable (Unit {0})
upsert_row keys row none rows =
    if may_write keys row rows then (ok tt, rows ++ row ∷ []) else (err internal, rows)
upsert_row keys row (some old) rows =
    if ltb old.version row.version
    then (if may_write keys row rows then (ok tt, replace_row row rows) else (err internal, rows))
    else (ok tt, rows)

-- INSERT .. ON CONFLICT (id) DO UPDATE .. WHERE profiles.version < EXCLUDED.version
unfoldable pub upsert : References → Profile → Exec ProfileTable (Unit {0})
unfolding upsert_row
upsert keys profile rows =
    upsert_row keys profile (find? (λ (row : Profile). row.id == profile.id) rows) rows

-- `ProfileProjectionWriter::delete`
unfoldable pub discard : ProfileId → Exec ProfileTable (Unit {0})
discard id rows = (ok tt, filter (λ (row : Profile). not (row.id == id)) rows)
