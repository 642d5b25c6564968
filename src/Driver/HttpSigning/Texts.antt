-- ===== src/Driver/HttpSigning/Texts.antt =====
-- The functions on strings of the standard library that driver/src/http_signing/ uses, on lists of
-- characters.
use mathlib.Core.List.{reverse}
use emumet.Prelude.{
  ℕ, ◌+◌, Option, none, some, Bool, true, false, ◌&&◌, List, [], ◌∷◌, ◌++◌, map, leb, ◌==◌,
  if◌then◌else◌, find?,
}
use emumet.Kernel.Text.{is_whitespace}
use emumet.Kernel.HttpSigning.{Text, Headers}

-- `u8::to_ascii_lowercase`
unfoldable pub lower : ℕ → ℕ
lower c = if leb 0x41 c && leb c 0x5a then c + 0x20 else c

-- `to_ascii_lowercase`
unfoldable pub to_ascii_lowercase : Text → Text
unfolding lower
to_ascii_lowercase cs = map lower cs

unfoldable pub same_text : Text → Text → Bool
same_text [] [] = true
same_text [] (b ∷ bs) = false
same_text (a ∷ cs) [] = false
same_text (a ∷ cs) (b ∷ bs) = (a == b) && same_text cs bs

unfoldable pub eq_ignore_ascii_case : Text → Text → Bool
unfolding same_text to_ascii_lowercase
eq_ignore_ascii_case a b = same_text (to_ascii_lowercase a) (to_ascii_lowercase b)

abbrev pub put_first : ℕ → Option (Text × Text) → Option (Text × Text)
put_first c none = none
put_first c (some (front, rest)) = some (c ∷ front, rest)

-- `split_once` of one character
unfoldable pub split_once : ℕ → Text → Option (Text × Text)
split_once separator [] = none
split_once separator (c ∷ cs) =
    let rest = split_once separator cs in if c == separator then some ([], cs) else put_first c rest

-- the parts that `split` of one character yields, the first one without its front
unfoldable pub split_from : ℕ → Text → Text → List Text
split_from separator current [] = current ∷ []
split_from separator current (c ∷ cs) = elim (c == separator) [
  | true ↦ current ∷ split_from separator [] cs
  | false ↦ split_from separator (current ++ c ∷ []) cs
]

unfoldable pub split : ℕ → Text → List Text
unfolding split_from
split separator = split_from separator []

abbrev pub word : Text → List Text → List Text
word [] rest = rest
word (c ∷ cs) rest = (c ∷ cs) ∷ rest

unfoldable pub words_from : Text → Text → List Text
unfolding is_whitespace
words_from current [] = word current []
words_from current (c ∷ cs) = elim (is_whitespace c) [
  | true ↦ word current (words_from [] cs)
  | false ↦ words_from (current ++ c ∷ []) cs
]

unfoldable pub split_whitespace : Text → List Text
unfolding words_from
split_whitespace = words_from []

abbrev pub last_is : ℕ → Text → Bool
last_is c [] = false
last_is c (d ∷ []) = d == c
last_is c (d ∷ e ∷ ds) = last_is c (e ∷ ds)

-- all but the last character
abbrev pub init : Text → Text
init [] = []
init (d ∷ []) = []
init (d ∷ e ∷ ds) = d ∷ init (e ∷ ds)

abbrev pub starts_with : Text → Text → Bool
starts_with [] cs = true
starts_with (p ∷ ps) [] = false
starts_with (p ∷ ps) (c ∷ cs) = (p == c) && starts_with ps cs

unfoldable pub ends_with : Text → Text → Bool
ends_with suffix cs = starts_with (reverse suffix) (reverse cs)

abbrev drop_leading : ℕ → Text → Text
drop_leading c [] = []
drop_leading c (d ∷ ds) = if d == c then drop_leading c ds else d ∷ ds

-- `trim_end_matches` of one character
unfoldable pub trim_end_matches : ℕ → Text → Text
trim_end_matches c cs = reverse (drop_leading c (reverse cs))

-- `join("\n")`
unfoldable pub join_lines : List Text → Text
join_lines [] = []
join_lines (l ∷ []) = l
join_lines (l ∷ m ∷ ls) = l ++ 0xa ∷ join_lines (m ∷ ls)

-- cavage/mod.rs `get_header`
unfoldable pub get_header : Headers → Text → Option Text
unfolding eq_ignore_ascii_case
get_header headers name =
    elim (find? (λ (header : Text × Text). eq_ignore_ascii_case header.0 name) headers) [
      | none ↦ none
      | some header ↦ some header.1
    ]
