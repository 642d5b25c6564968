-- ===== src/Application/Details.antt =====
-- application/src/service/account_detail/validate.rs and the request of application/src/dto/account.rs:
-- the checks on a change of an account's details.
pub mod Checks
use Prim.Native.String.{String}
use emumet.Prelude.{Option, none, some, Bool, List, [], ◌∷◌}
use emumet.Kernel.Error.{Result, ok, ◌>>=◌}
use emumet.Kernel.FieldAction.{FieldAction, unchanged, clear, set}
use emumet.Kernel.Text.{validate_display_name, validate_summary, validate_label, validate_content}

pub record AccountFieldDto : Type 0 where
  pub label : String
  pub content : String

pub record UpdateAccountDto : Type 0 where
  pub account_nanoid : String
  pub is_bot : FieldAction Bool
  pub display_name : FieldAction String
  pub summary : FieldAction String
  pub icon_url : FieldAction String
  pub banner_url : FieldAction String
  pub fields : Option (List AccountFieldDto)

-- `if let FieldAction::Set(value) = action { validate(value)?; }`
abbrev pub validate_set : (String → Result (Unit {0})) → FieldAction String → Result (Unit {0})
validate_set validate unchanged = ok tt
validate_set validate clear = ok tt
validate_set validate (set value) = validate value

unfoldable pub validate_fields : List AccountFieldDto → Result (Unit {0})
validate_fields [] = ok tt
validate_fields (field ∷ fields) =
    let rest = validate_fields fields in
    validate_label field.label >>= λ _. validate_content field.content >>= λ _. rest

abbrev pub validate_some_fields : Option (List AccountFieldDto) → Result (Unit {0})
validate_some_fields none = ok tt
validate_some_fields (some fields) = validate_fields fields

unfoldable pub validate_update_account_dto : UpdateAccountDto → Result (Unit {0})
unfolding validate_fields
validate_update_account_dto dto = validate_set validate_display_name dto.display_name >>= λ _.
    validate_set validate_summary dto.summary >>= λ _. validate_some_fields dto.fields
