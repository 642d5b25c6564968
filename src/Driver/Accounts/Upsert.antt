-- ===== src/Driver/Accounts/Upsert.antt =====
-- The version gate of the projection writer.
use emumet.Prelude.{
  ◌≤◌, ◌≡◌, ◌≢◌, refl, Option, none, some, List, [], ◌∷◌, ◌++◌, arith, ltb, ==_refl, if◌then◌else◌,
  find?,
}
use emumet.Kernel.Error.{KernelError, ok, err}
use emumet.Kernel.Account.{Account, AccountId}
use emumet.Driver.Accounts.{
  AccountRow, AccountTables, with_id, to_row, replace_row, upsert_row, upsert,
}

-- the row of an id
abbrev pub row_of : AccountId → AccountTables → Option AccountRow
row_of id t = find? (with_id id) t.accounts

find?-append_new :
    (row : AccountRow) (rows : List AccountRow)
    → find? (with_id row.id) rows ≡ none
    → find? (with_id row.id) (rows ++ row ∷ []) ≡ some row
find?-append_new row [] h = ground (arith, ==_refl row.id)
find?-append_new row (r ∷ rows) h = ground (arith, find?-append_new row rows)

find?-append_other :
    (row : AccountRow) (id : AccountId) (rows : List AccountRow)
    → row.id ≢ id
    → find? (with_id id) (rows ++ row ∷ []) ≡ find? (with_id id) rows
find?-append_other row id [] h = ground arith
find?-append_other row id (r ∷ rows) h = ground (arith, find?-append_other row id rows h)

find?-replace_row :
    (row old : AccountRow) (rows : List AccountRow)
    → find? (with_id row.id) rows ≡ some old
    → find? (with_id row.id) (replace_row row rows) ≡ some row
find?-replace_row row old [] h = cc
find?-replace_row row old (r ∷ rows) h =
    ground (arith, ==_refl row.id, find?-replace_row row old rows)

find?-replace_row_other :
    (row : AccountRow) (id : AccountId) (rows : List AccountRow)
    → row.id ≢ id
    → find? (with_id id) (replace_row row rows) ≡ find? (with_id id) rows
find?-replace_row_other row id [] h = refl
find?-replace_row_other row id (r ∷ rows) h = ground (arith, find?-replace_row_other row id rows h)

-- the stored row is at least as new as the account
abbrev pub IsProjected : Account → AccountTables → Type 0
IsProjected account t =
    (row : AccountRow) × (row_of account.id t ≡ some row) × (account.version ≤ row.version)

-- An account that is not newer than the stored row changes nothing.
pub upsert_of_IsProjected :
    (account : Account) (t : AccountTables) → IsProjected account t → upsert account t ≡ (ok tt, t)
unfolding upsert
upsert_of_IsProjected account t (row, found, newer) = rw found (ground arith)

-- the newer of the row and the stored one; the stored one of two that are as new
abbrev pub newest : AccountRow → Option AccountRow → AccountRow
newest row none = row
newest row (some old) = if ltb old.version row.version then row else old

find?-upsert_row :
    (row : AccountRow) (old : Option AccountRow) (t : AccountTables)
    → find? (with_id row.id) t.accounts ≡ old
    → (upsert_row row old t).0 ≡ ok tt
    → find? (with_id row.id) (upsert_row row old t).1.accounts ≡ some (newest row old)
unfolding upsert_row
find?-upsert_row row none t h done = ground (arith, find?-append_new row t.accounts)
find?-upsert_row row (some old) t h done = ground (arith, find?-replace_row row old t.accounts h)

find?-upsert_row_other :
    (row : AccountRow) (old : Option AccountRow) (t : AccountTables) (id : AccountId)
    → row.id ≢ id
    → find? (with_id id) (upsert_row row old t).1.accounts ≡ find? (with_id id) t.accounts
unfolding upsert_row
find?-upsert_row_other row none t id other =
    ground (arith, find?-append_other row id t.accounts other)
find?-upsert_row_other row (some old) t id other =
    ground (arith, find?-replace_row_other row id t.accounts other)

upsert_row-error :
    (row : AccountRow) (old : Option AccountRow) (t : AccountTables) (e : KernelError)
    → (upsert_row row old t).0 ≡ err e
    → (upsert_row row old t).1 ≡ t
unfolding upsert_row
upsert_row-error row none t e h = ground arith
upsert_row-error row (some old) t e h = ground arith

upsert_row-auth_accounts :
    (row : AccountRow) (old : Option AccountRow) (t : AccountTables)
    → (upsert_row row old t).1.auth_accounts ≡ t.auth_accounts
unfolding upsert_row
upsert_row-auth_accounts row none t = ground arith
upsert_row-auth_accounts row (some old) t = ground arith

module _ (account : Account) (t : AccountTables) where
  -- An upsert leaves the principals as they are.
  pub upsert-auth_accounts : (upsert account t).1.auth_accounts ≡ t.auth_accounts
  unfolding upsert to_row
  upsert-auth_accounts = upsert_row-auth_accounts (to_row account) (row_of account.id t) t

  -- A successful upsert leaves the newer of the account's row and the row that was stored.
  pub upsert-newest :
      (upsert account t).0 ≡ ok tt
      → row_of account.id (upsert account t).1
        ≡ some (newest (to_row account) (row_of account.id t))
  unfolding upsert to_row
  upsert-newest done = find?-upsert_row (to_row account) (row_of account.id t) t refl done

  -- A refused upsert changes nothing.
  pub upsert_error_unchanged :
      (e : KernelError) → (upsert account t).0 ≡ err e → (upsert account t).1 ≡ t
  unfolding upsert to_row
  upsert_error_unchanged e failed =
      upsert_row-error (to_row account) (row_of account.id t) t e failed

  -- An upsert, successful or not, leaves the row of every other id as it is.
  pub upsert_other :
      (id : AccountId) → account.id ≢ id → row_of id (upsert account t).1 ≡ row_of id t
  unfolding upsert to_row
  upsert_other id other = find?-upsert_row_other (to_row account) (row_of account.id t) t id other

  upsert-IsProjected : (upsert account t).0 ≡ ok tt → IsProjected account (upsert account t).1
  upsert-IsProjected done = (
    newest (to_row account) (row_of account.id t),
    upsert-newest done,
    newest-le (row_of account.id t),
  )
    where
      newest-le :
          (old : Option AccountRow) → account.version ≤ (newest (to_row account) old).version
      newest-le none = unfold to_row in omega arith
      newest-le (some old) = unfold to_row in ground arith

  -- After a successful upsert another upsert of the same account succeeds and changes nothing.
  pub upsert_idempotent :
      (upsert account t).0 ≡ ok tt
      → upsert account (upsert account t).1 ≡ (ok tt, (upsert account t).1)
  upsert_idempotent done =
      upsert_of_IsProjected account (upsert account t).1 (upsert-IsProjected done)
