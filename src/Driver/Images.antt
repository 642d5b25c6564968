-- ===== src/Driver/Images.antt =====
-- driver/src/database/postgres/image.rs and kernel/src/entity/image.rs: the table of images.
use Prim.Native.String.{String}
use text.Mathlib.Text.{◌==◌ as str_eq}
use emumet.Prelude.{Option, not, ◌||◌, List, [], ◌∷◌, ◌++◌, ◌==◌, if◌then◌else◌, filter, find?, any}
use emumet.Kernel.Error.{ok, err, not_found, internal}
use emumet.Kernel.Exec.{Exec}
use emumet.Kernel.Profile.{ImageId}

pub record Image : Type 0 where
  pub id : ImageId
  pub url : String
  pub hash : String
  pub blur_hash : String

abbrev pub ImageTable : Type 0
ImageTable = List Image

unfoldable pub find_by_id : ImageId → Exec ImageTable (Option Image)
find_by_id id rows = (ok (find? (λ (row : Image). row.id == id) rows), rows)

unfoldable pub find_by_ids : List ImageId → Exec ImageTable (List Image)
find_by_ids ids rows = (ok (filter (λ (row : Image). any (λ id. id == row.id) ids) rows), rows)

unfoldable pub find_by_url : String → Exec ImageTable (Option Image)
find_by_url url rows = (ok (find? (λ (row : Image). str_eq row.url url) rows), rows)

-- INSERT, under the primary key and the unique url
unfoldable pub create : Image → Exec ImageTable (Unit {0})
create image rows =
    if any (λ (row : Image). row.id == image.id || str_eq row.url image.url) rows
    then (err internal, rows)
    else (ok tt, rows ++ image ∷ [])

-- the columns that refer to the image become NULL in their own tables
unfoldable pub delete : ImageId → Exec ImageTable (Unit {0})
delete id rows =
    if any (λ (row : Image). row.id == id) rows
    then (ok tt, filter (λ (row : Image). not (row.id == id)) rows)
    else (err not_found, rows)
