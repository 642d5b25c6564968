-- ===== src/Driver/HttpSigning/Parser/RoundTrip.antt =====
-- The header `Signature` as it is written, and read back.
use mathlib.Core.List.{reverse, reverse-append, reverse-reverse, append-nil, append_assoc}
use emumet.Prelude.{
  ℕ, ◌≡◌, refl, sym, ap, ◌∙◌, subst, arith, some, Bool, true, false, ◌||◌, List, [], ◌∷◌, ◌++◌, map,
  ◌==◌, ==_refl, if◌then◌else◌, inl, inr, Bool-cases, All,
}
use emumet.Kernel.Text.{is_whitespace, trim, trim_start}
use emumet.Kernel.HttpSigning.{Text}
use emumet.Driver.HttpSigning.Texts.{split_once, last_is, init}
use emumet.Driver.HttpSigning.Messages.{good}
use emumet.Driver.HttpSigning.Parser.{
  SplitState, quote, backslash, comma, equals_sign, split_step, split_loop, push_current, finish,
  non_empty, parse_pair, parse_value, split_signature_params, unescape, parse_quoted_value,
  parse_signature_param,
}

abbrev is_special : ℕ → Bool
is_special c = c == quote || c == backslash

-- a backslash in front of each quote and backslash
abbrev pub escape : Text → Text
escape [] = []
escape (c ∷ cs) = if is_special c then backslash ∷ c ∷ escape cs else c ∷ escape cs

abbrev pub quoted : Text → Text
quoted value = quote ∷ (escape value ++ quote ∷ [])

abbrev pub print_param : Text × Text → Text
print_param p = p.0 ++ equals_sign ∷ quoted p.1

-- the parameters between commas
abbrev pub print_params : Text × Text → List (Text × Text) → Text
print_params p [] = print_param p
print_params p (q ∷ ps) = print_param p ++ comma ∷ print_params q ps

-- no quote, comma, equals sign or white space
pub record IsPlain (c : ℕ) : Type 0 where
  pub no_quote : (c == quote) ≡ false
  pub no_comma : (c == comma) ≡ false
  pub no_equals : (c == equals_sign) ≡ false
  pub no_space : is_whitespace c ≡ false

-- a name that is not empty
abbrev pub IsName : Text → Type 0
IsName [] = ⊥
IsName (c ∷ cs) = IsPlain c × All IsPlain cs

loop-append :
    (s : SplitState) (xs ys : Text) → split_loop s (xs ++ ys) ≡ split_loop (split_loop s xs) ys
unfolding split_loop
loop-append s [] ys = refl
loop-append s (x ∷ xs) ys = loop-append (split_step s x) xs ys

abbrev outside : List Text → Text → SplitState
outside params current = record {
  params = params;
  current = current;
  in_quotes = false;
  escaped = false;
}

abbrev inside : List Text → Text → SplitState
inside params current = record {
  params = params;
  current = current;
  in_quotes = true;
  escaped = false;
}

step-plain :
    (params : List Text) (current : Text) (c : ℕ)
    → (c == quote) ≡ false
    → (c == comma) ≡ false
    → split_step (outside params current) c ≡ outside params (current ++ c ∷ [])
unfolding split_step
step-plain params current c q k = ground arith

loop-name :
    (params : List Text) (current name : Text)
    → All IsPlain name
    → split_loop (outside params current) name ≡ outside params (current ++ name)
unfolding split_loop
loop-name params current [] h = ap (outside params) (sym (append-nil current))
loop-name params current (c ∷ cs) h =
    ap (λ s. split_loop s cs) (step-plain params current c h.0.no_quote h.0.no_comma)
    ∙ loop-name params (current ++ c ∷ []) cs h.1
    ∙ ap (outside params) (append_assoc current (c ∷ []) cs)

step-inside :
    (params : List Text) (current : Text) (c : ℕ)
    → is_special c ≡ false
    → split_step (inside params current) c ≡ inside params (current ++ c ∷ [])
unfolding split_step
step-inside params current c h = ground arith

loop-escape :
    (params : List Text) (current value : Text)
    → split_loop (inside params current) (escape value) ≡ inside params (current ++ escape value)
unfolding split_loop split_step
loop-escape params current [] = ap (inside params) (sym (append-nil current))
loop-escape params current (c ∷ cs) = elim (Bool-cases (is_special c)) [
  | inl e ↦ rw e (
      loop-escape params ((current ++ backslash ∷ []) ++ c ∷ []) cs
      ∙ ap (inside params) (
          append_assoc (current ++ backslash ∷ []) (c ∷ []) (escape cs)
          ∙ append_assoc current (backslash ∷ []) (c ∷ escape cs)))
  | inr e ↦ rw e (
      ap (λ s. split_loop s (escape cs)) (step-inside params current c e)
      ∙ loop-escape params (current ++ c ∷ []) cs
      ∙ ap (inside params) (append_assoc current (c ∷ []) (escape cs)))
]

loop-quoted :
    (params : List Text) (current value : Text)
    → split_loop (outside params current) (quoted value) ≡ outside params (current ++ quoted value)
unfolding split_loop split_step
loop-quoted params current value =
    loop-append (inside params (current ++ quote ∷ [])) (escape value) (quote ∷ [])
    ∙ ap (λ s. split_loop s (quote ∷ [])) (loop-escape params (current ++ quote ∷ []) value)
    ∙ ap (outside params) (
        append_assoc (current ++ quote ∷ []) (escape value) (quote ∷ [])
        ∙ append_assoc current (quote ∷ []) (escape value ++ quote ∷ []))

loop-equals :
    (params : List Text) (current value : Text)
    → split_loop (outside params current) (equals_sign ∷ quoted value)
      ≡ outside params (current ++ equals_sign ∷ quoted value)
unfolding split_loop split_step
loop-equals params current value =
    loop-quoted params (current ++ equals_sign ∷ []) value
    ∙ ap (outside params) (append_assoc current (equals_sign ∷ []) (quoted value))

-- reading one parameter from the start of a part
loop-param :
    (params : List Text) (p : Text × Text)
    → All IsPlain p.0
    → split_loop (outside params []) (print_param p) ≡ outside params (print_param p)
loop-param params p h =
    loop-append (outside params []) p.0 (equals_sign ∷ quoted p.1)
    ∙ ap (λ s. split_loop s (equals_sign ∷ quoted p.1)) (loop-name params [] p.0 h)
    ∙ loop-equals params p.0 p.1

trim_start-kept : (c : ℕ) (cs : Text) → is_whitespace c ≡ false → trim_start (c ∷ cs) ≡ c ∷ cs
unfolding trim_start
trim_start-kept c cs h = rw h refl

reverse-ends :
    (c : ℕ) (middle : Text) (d : ℕ) → reverse (c ∷ middle ++ d ∷ []) ≡ d ∷ reverse (c ∷ middle)
reverse-ends c middle d = reverse-append (c ∷ middle) (d ∷ [])

-- a text between two characters that are no white space
trim-ends :
    (c : ℕ) (middle : Text) (d : ℕ)
    → is_whitespace c ≡ false
    → is_whitespace d ≡ false
    → trim (c ∷ middle ++ d ∷ []) ≡ c ∷ middle ++ d ∷ []
unfolding trim
trim-ends c middle d h k =
    ap (λ (cs : Text). reverse (trim_start (reverse cs))) (trim_start-kept c (middle ++ d ∷ []) h)
    ∙ ap (λ (cs : Text). reverse (trim_start cs)) (reverse-ends c middle d)
    ∙ ap reverse (trim_start-kept d (reverse (c ∷ middle)) k ∙ sym (reverse-ends c middle d))
    ∙ reverse-reverse (c ∷ middle ++ d ∷ [])

-- a parameter starts with its name and ends with a quote
print_param-ends :
    (c : ℕ) (cs value : Text)
    → print_param (c ∷ cs, value) ≡ c ∷ (cs ++ equals_sign ∷ quote ∷ escape value) ++ quote ∷ []
print_param-ends c cs value =
    ap (◌∷◌ c) (sym (append_assoc cs (equals_sign ∷ quote ∷ escape value) (quote ∷ [])))

trim-print_param : (p : Text × Text) → IsName p.0 → trim (print_param p) ≡ print_param p
unfolding is_whitespace
trim-print_param ([], value) h = absurd h
trim-print_param (c ∷ cs, value) h =
    subst (λ (t : Text). trim t ≡ t) (sym (print_param-ends c cs value))
      (trim-ends c (cs ++ equals_sign ∷ quote ∷ escape value) quote h.0.no_space refl)

push_current-print_param :
    (params : List Text) (p : Text × Text)
    → IsName p.0
    → push_current params (print_param p) ≡ params ++ print_param p ∷ []
unfolding push_current
push_current-print_param params ([], value) h = absurd h
push_current-print_param params (c ∷ cs, value) h = rw (trim-print_param (c ∷ cs, value) h) refl

IsName-All : (name : Text) → IsName name → All IsPlain name
IsName-All [] h = absurd h
IsName-All (c ∷ cs) h = h

non_empty-last :
    (params : List Text) (x : Text) → non_empty (params ++ x ∷ []) ≡ good (params ++ x ∷ [])
non_empty-last [] x = refl
non_empty-last (y ∷ params) x = refl

abbrev pub HasName : Text × Text → Type 0
HasName p = IsName p.0

split_loop-print_params :
    (params : List Text) (p : Text × Text) (ps : List (Text × Text))
    → HasName p
    → All HasName ps
    → finish (split_loop (outside params []) (print_params p ps))
      ≡ good (params ++ map print_param (p ∷ ps))
unfolding split_loop finish split_step
split_loop-print_params params p [] h hs =
    ap finish (loop-param params p (IsName-All p.0 h))
    ∙ ap non_empty (push_current-print_param params p h)
    ∙ non_empty-last params (print_param p)
split_loop-print_params params p (q ∷ ps) h hs =
    ap finish (
      loop-append (outside params []) (print_param p) (comma ∷ print_params q ps)
      ∙ ap (λ s. split_loop s (comma ∷ print_params q ps)) (loop-param params p (IsName-All p.0 h))
      ∙ ap (λ (l : List Text). split_loop (outside l []) (print_params q ps))
          (push_current-print_param params p h))
    ∙ split_loop-print_params (params ++ print_param p ∷ []) q ps hs.0 hs.1
    ∙ ap good (append_assoc params (print_param p ∷ []) (map print_param (q ∷ ps)))

not_backslash : (c : ℕ) → is_special c ≡ false → (c == backslash) ≡ false
not_backslash c h = ground arith

unescape-plain :
    (output : Text) (c : ℕ) (cs : Text)
    → (c == backslash) ≡ false
    → unescape output (c ∷ cs) false ≡ unescape (output ++ c ∷ []) cs false
unfolding unescape
unescape-plain output c cs h = rw (unescape, h) refl

-- the text between the quotes
unescape-escape :
    (output value : Text) → unescape output (escape value) false ≡ good (output ++ value)
unfolding unescape
unescape-escape output [] = ap good (sym (append-nil output))
unescape-escape output (c ∷ cs) = elim (Bool-cases (is_special c)) [
  | inl e ↦ rw e (unescape-escape (output ++ c ∷ []) cs ∙ ap good (append_assoc output (c ∷ []) cs))
  | inr e ↦ rw e (
      unescape-plain output c (escape cs) (not_backslash c e)
      ∙ unescape-escape (output ++ c ∷ []) cs
      ∙ ap good (append_assoc output (c ∷ []) cs))
]

last_is-append : (cs : Text) (d : ℕ) → last_is d (cs ++ d ∷ []) ≡ true
last_is-append [] d = ==_refl d
last_is-append (c ∷ []) d = ==_refl d
last_is-append (c ∷ e ∷ cs) d = last_is-append (e ∷ cs) d

init-append : (cs : Text) (d : ℕ) → init (cs ++ d ∷ []) ≡ cs
init-append [] d = refl
init-append (c ∷ []) d = refl
init-append (c ∷ e ∷ cs) d = ap (◌∷◌ c) (init-append (e ∷ cs) d)

parse_quoted_value-escape :
    (value : Text) → parse_quoted_value (escape value ++ quote ∷ []) ≡ good value
unfolding parse_quoted_value
parse_quoted_value-escape value =
    rw (last_is-append (escape value) quote, init-append (escape value) quote)
      (unescape-escape [] value)

split_once-name :
    (name rest : Text)
    → All IsPlain name
    → split_once equals_sign (name ++ equals_sign ∷ rest) ≡ some (name, rest)
unfolding split_once
split_once-name [] rest h = refl
split_once-name (c ∷ cs) rest h = rw (h.0.no_equals, split_once-name cs rest h.1) refl

-- a name is trimmed already
last-IsPlain :
    (c : ℕ) (cs : Text)
    → IsPlain c
    → All IsPlain cs
    → (front : Text) × (d : ℕ) × (c ∷ cs ≡ front ++ d ∷ []) × IsPlain d
last-IsPlain c [] h hs = ([], c, refl, h)
last-IsPlain c (d ∷ cs) h hs =
    let (front, e, same, plain) = last-IsPlain d cs hs.0 hs.1 in
    (c ∷ front, e, ap (◌∷◌ c) same, plain)

reverse-last : (front : Text) (d : ℕ) → reverse (front ++ d ∷ []) ≡ d ∷ reverse front
reverse-last front d = reverse-append front (d ∷ [])

trim_end-last :
    (front : Text) (d : ℕ)
    → is_whitespace d ≡ false
    → reverse (trim_start (reverse (front ++ d ∷ []))) ≡ front ++ d ∷ []
trim_end-last front d h =
    ap (λ (cs : Text). reverse (trim_start cs)) (reverse-last front d)
    ∙ ap reverse (trim_start-kept d (reverse front) h ∙ sym (reverse-last front d))
    ∙ reverse-reverse (front ++ d ∷ [])

trim-name : (name : Text) → IsName name → trim name ≡ name
unfolding trim
trim-name [] h = absurd h
trim-name (c ∷ cs) h =
    let (front, d, same, plain) = last-IsPlain c cs h.0 h.1 in
    ap (λ (t : Text). reverse (trim_start (reverse t))) (trim_start-kept c cs h.0.no_space)
    ∙ subst (λ (t : Text). reverse (trim_start (reverse t)) ≡ t) (sym same)
        (trim_end-last front d plain.no_space)

trim-quoted : (value : Text) → trim (quoted value) ≡ quoted value
unfolding is_whitespace
trim-quoted value = trim-ends quote (escape value) quote refl refl

parse_pair-quoted :
    (name value : Text) → IsName name → parse_pair (some (name, quoted value)) ≡ good (name, value)
unfolding parse_pair parse_value
parse_pair-quoted [] value h = absurd h
parse_pair-quoted (c ∷ cs) value h =
    rw (trim-name (c ∷ cs) h, trim-quoted value, parse_quoted_value-escape value) refl

-- A printed parameter reads back as its name and its value.
pub parse_signature_param-print_param :
    (p : Text × Text) → IsName p.0 → parse_signature_param (print_param p) ≡ good p
unfolding parse_signature_param
parse_signature_param-print_param (name, value) h =
    ap parse_pair (split_once-name name (quoted value) (IsName-All name h))
    ∙ parse_pair-quoted name value h

-- Printed parameters are split into themselves.
pub split_signature_params-print_params :
    (p : Text × Text) (ps : List (Text × Text))
    → HasName p
    → All HasName ps
    → split_signature_params (print_params p ps) ≡ good (map print_param (p ∷ ps))
unfolding split_signature_params
split_signature_params-print_params p ps h hs = split_loop-print_params [] p ps h hs
