-- ===== src/Kernel/Text.antt =====
-- kernel/src/entity/account/{name,moderation_reason}.rs, profile/{display_name,summary}.rs and
-- metadata/{label,content}.rs and image/url.rs: the checks on texts, over the code points of a string.
pub mod Checks
use Prim.Native.Char.{code}
use Prim.Native.String.{String}
use mathlib.Core.List.{reverse}
use emumet.Prelude.{
  ℕ, suc, Bool, true, false, ◌||◌, ◌&&◌, List, [], ◌∷◌, ltb, leb, ◌==◌, if◌then◌else◌, length, any,
}
use emumet.Kernel.Error.{Result, ok, err, rejected, validation}

-- the characters of a string
unfoldable pub chars : String → List ℕ
chars String.[] = []
chars (String.◌∷◌ c s) = code c ∷ chars s

-- `char::is_whitespace`: the Unicode property White_Space
unfoldable pub is_whitespace : ℕ → Bool
is_whitespace c =
    leb 0x9 c && leb c 0xd
    || c == 0x20
    || c == 0x85
    || c == 0xa0
    || c == 0x1680
    || leb 0x2000 c && leb c 0x200a
    || c == 0x2028
    || c == 0x2029
    || c == 0x202f
    || c == 0x205f
    || c == 0x3000

unfoldable pub trim_start : List ℕ → List ℕ
unfolding is_whitespace
trim_start [] = []
trim_start (c ∷ cs) = let rest = trim_start cs in if is_whitespace c then rest else c ∷ cs

-- `str::trim`
unfoldable pub trim : List ℕ → List ℕ
unfolding trim_start
trim cs = reverse (trim_start (reverse (trim_start cs)))

abbrev pub is_empty : List ℕ → Bool
is_empty [] = true
is_empty (_ ∷ _) = false

-- `AccountName::validate`
unfoldable pub validate_account_name : String → Result (Unit {0})
unfolding trim chars is_whitespace
validate_account_name name =
    if is_empty (trim (chars name))
    then err rejected
    else if any is_whitespace (chars name)
    then err rejected
    else ok tt

abbrev pub max_reason_length : ℕ
max_reason_length = 500

-- `ModerationReason::validate`
unfoldable pub validate_reason : String → Result (Unit {0})
unfolding trim chars
validate_reason reason =
    if is_empty (trim (chars reason))
    then err validation
    else if ltb max_reason_length (length (chars reason))
    then err validation
    else ok tt

abbrev validate_length : ℕ → String → Result (Unit {0})
validate_length max text = if ltb max (length (chars text)) then err validation else ok tt

-- `ProfileDisplayName::validate`
unfoldable pub validate_display_name : String → Result (Unit {0})
unfolding chars
validate_display_name = validate_length 100

-- `ProfileSummary::validate`
unfoldable pub validate_summary : String → Result (Unit {0})
unfolding chars
validate_summary = validate_length 2000

-- `MetadataLabel::validate`
unfoldable pub validate_label : String → Result (Unit {0})
unfolding chars
validate_label = validate_length 255

-- `MetadataContent::validate`
unfoldable pub validate_content : String → Result (Unit {0})
unfolding chars
validate_content = validate_length 1000

-- `ImageUrl::validate`
unfoldable pub validate_image_url : String → Result (Unit {0})
unfolding chars
validate_image_url url =
    if is_empty (chars url)
    then err validation
    else if ltb 2048 (length (chars url))
    then err validation
    else ok tt
