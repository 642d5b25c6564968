-- ===== src/Kernel/FieldAction.antt =====
-- kernel/src/entity/common/field_action.rs: what an update does to one field.
use emumet.Prelude.{Option, none, some, Bool, true, false, ◌≡◌, refl, if◌then◌else◌}

pub data FieldAction {ℓ} (T : Type ℓ) : Type ℓ where
  unchanged clear : FieldAction T
  set : T → FieldAction T

module _ {ℓ} {T : Type ℓ} where
  unfoldable pub is_unchanged : FieldAction T → Bool
  is_unchanged unchanged = true
  is_unchanged _ = false

  unfoldable pub map_action {κ} : {U : Type κ} → (T → U) → FieldAction T → FieldAction U
  map_action f unchanged = unchanged
  map_action f clear = clear
  map_action f (set v) = set (f v)

  -- the arms `Unchanged => {}`, `Clear => field = None`, `Set(v) => field = Some(v)`
  unfoldable pub act : FieldAction T → Option T → Option T
  act unchanged field = field
  act clear field = none
  act (set v) field = some v

  -- JSON null is `none`
  unfoldable pub serialize : FieldAction T → Option T
  serialize unchanged = none
  serialize clear = none
  serialize (set v) = some v

  unfoldable pub deserialize : Option T → FieldAction T
  deserialize none = clear
  deserialize (some v) = set v

  -- `#[serde(default, skip_serializing_if = "FieldAction::is_unchanged")]`: a field that may be
  -- absent, `none`
  unfoldable pub write_field : FieldAction T → Option (Option T)
  unfolding is_unchanged serialize
  write_field action = if is_unchanged action then none else some (serialize action)

  unfoldable pub read_field : Option (Option T) → FieldAction T
  unfolding deserialize
  read_field none = unchanged
  read_field (some value) = deserialize value

  -- The JSON that is written of a field's action, where `Unchanged` leaves the field out, reads
  -- back as the same action.
  pub read_field-write_field : (action : FieldAction T) → read_field (write_field action) ≡ action
  unfolding read_field write_field
  read_field-write_field unchanged = refl
  read_field-write_field clear = refl
  read_field-write_field (set v) = refl
