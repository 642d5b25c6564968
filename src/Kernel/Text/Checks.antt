-- ===== src/Kernel/Text/Checks.antt =====
-- What the checks on texts accept.
use Prim.Native.String.{String}
use mathlib.Core.List.{reverse, reverse-append}
use emumet.Prelude.{
  ℕ, ◌≡◌, refl, Bool, false, not, ◌&&◌, List, [], ◌∷◌, ◌++◌, arith, leb, length, any, all,
}
use emumet.Kernel.Error.{is_ok}
use emumet.Kernel.Text.{
  chars, is_whitespace, trim_start, trim, is_empty, validate_account_name, validate_reason,
  max_reason_length,
}

is_empty-append_last : (c : ℕ) (cs : List ℕ) → is_empty (cs ++ c ∷ []) ≡ false
is_empty-append_last c [] = refl
is_empty-append_last c (d ∷ cs) = refl

is_empty-reverse : (cs : List ℕ) → is_empty (reverse cs) ≡ is_empty cs
is_empty-reverse [] = refl
is_empty-reverse (c ∷ cs) = rw (reverse-append (c ∷ []) cs) (is_empty-append_last c (reverse cs))

-- what is left after trimming the start begins with a character that is no space
is_empty-trim_start : (cs : List ℕ) → is_empty (trim_start cs) ≡ all is_whitespace cs
unfolding trim_start
is_empty-trim_start [] = refl
is_empty-trim_start (c ∷ cs) = ground (arith, is_empty-trim_start cs)

all-append : (p : ℕ → Bool) (cs ds : List ℕ) → all p (cs ++ ds) ≡ (all p cs && all p ds)
all-append p [] ds = refl
all-append p (c ∷ cs) ds = ground (arith, all-append p cs ds)

all-reverse : (p : ℕ → Bool) (cs : List ℕ) → all p (reverse cs) ≡ all p cs
all-reverse p [] = refl
all-reverse p (c ∷ cs) =
    rw (reverse-append (c ∷ []) cs, all-append p (reverse cs) (c ∷ []), all-reverse p cs)
      (ground arith)

all-trim_start : (cs : List ℕ) → all is_whitespace (trim_start cs) ≡ all is_whitespace cs
unfolding trim_start
all-trim_start [] = refl
all-trim_start (c ∷ cs) = ground (arith, all-trim_start cs)

-- A text trims to nothing exactly when all of it is whitespace.
pub is_empty-trim : (cs : List ℕ) → is_empty (trim cs) ≡ all is_whitespace cs
unfolding trim
is_empty-trim cs =
    rw
      (
        is_empty-reverse (trim_start (reverse (trim_start cs))),
        is_empty-trim_start (reverse (trim_start cs)),
        all-reverse is_whitespace (trim_start cs),
      )
      (all-trim_start cs)

-- A moderation reason is accepted exactly when it holds a character that is no whitespace and has
-- at most 500 characters.
pub is_ok-validate_reason :
    (reason : String)
    → is_ok (validate_reason reason)
      ≡ (not (all is_whitespace (chars reason)) && leb (length (chars reason)) max_reason_length)
unfolding validate_reason
is_ok-validate_reason reason = ground (arith, is_empty-trim (chars reason))

any-all : (cs : List ℕ) → any is_whitespace cs ≡ false → all is_whitespace cs ≡ is_empty cs
any-all [] h = refl
any-all (c ∷ cs) h = ground arith

-- An account name is accepted exactly when it is not empty and holds no whitespace.
pub is_ok-validate_account_name :
    (name : String)
    → is_ok (validate_account_name name)
      ≡ (not (is_empty (chars name)) && not (any is_whitespace (chars name)))
unfolding validate_account_name
is_ok-validate_account_name name = ground (arith, is_empty-trim (chars name), any-all (chars name))
