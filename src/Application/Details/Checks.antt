-- ===== src/Application/Details/Checks.antt =====
-- Which changes of an account's details are accepted.
use Prim.Native.String.{String}
use emumet.Prelude.{
  ℕ, ◌≡◌, refl, Option, none, some, Bool, true, ◌&&◌, List, [], ◌∷◌, arith, leb, length, all,
}
use emumet.Kernel.Error.{is_ok}
use emumet.Kernel.FieldAction.{FieldAction, unchanged, clear, set}
use emumet.Kernel.Text.{
  chars, validate_display_name, validate_summary, validate_label, validate_content,
}
use emumet.Application.Details.{
  AccountFieldDto, UpdateAccountDto, validate_set, validate_fields, validate_some_fields,
  validate_update_account_dto,
}

abbrev pub fits : ℕ → String → Bool
fits max text = leb (length (chars text)) max

-- a text that is set has at most so many characters
abbrev pub set_fits : ℕ → FieldAction String → Bool
set_fits max unchanged = true
set_fits max clear = true
set_fits max (set text) = fits max text

abbrev pub field_fits : AccountFieldDto → Bool
field_fits field = fits 255 field.label && fits 1000 field.content

abbrev pub some_fields_fit : Option (List AccountFieldDto) → Bool
some_fields_fit none = true
some_fields_fit (some fields) = all field_fits fields

is_ok-validate_display_name :
    (action : FieldAction String)
    → is_ok (validate_set validate_display_name action) ≡ set_fits 100 action
unfolding validate_display_name
is_ok-validate_display_name unchanged = refl
is_ok-validate_display_name clear = refl
is_ok-validate_display_name (set text) = ground arith

is_ok-validate_summary :
    (action : FieldAction String)
    → is_ok (validate_set validate_summary action) ≡ set_fits 2000 action
unfolding validate_summary
is_ok-validate_summary unchanged = refl
is_ok-validate_summary clear = refl
is_ok-validate_summary (set text) = ground arith

is_ok-validate_fields :
    (fields : List AccountFieldDto) → is_ok (validate_fields fields) ≡ all field_fits fields
unfolding validate_fields validate_label validate_content
is_ok-validate_fields [] = refl
is_ok-validate_fields (field ∷ fields) = ground (arith, is_ok-validate_fields fields)

is_ok-validate_some_fields :
    (fields : Option (List AccountFieldDto))
    → is_ok (validate_some_fields fields) ≡ some_fields_fit fields
is_ok-validate_some_fields none = refl
is_ok-validate_some_fields (some fields) = is_ok-validate_fields fields

-- A change of an account's details is accepted exactly when the display name that it sets, if any,
-- has at most 100 characters, the summary at most 2000, and each label that it lists at most 255
-- and each content at most 1000.
pub is_ok-validate_update_account_dto :
    (dto : UpdateAccountDto)
    → is_ok (validate_update_account_dto dto)
      ≡ (set_fits 100 dto.display_name && (set_fits 2000 dto.summary && some_fields_fit dto.fields))
unfolding validate_update_account_dto
is_ok-validate_update_account_dto dto = ground (
  arith,
  is_ok-validate_display_name dto.display_name,
  is_ok-validate_summary dto.summary,
  is_ok-validate_some_fields dto.fields,
)
