-- ===== src/Application/Inbox/Answers.antt =====
-- What an Accept and an Undo of a Follow do to the follows.
use Prim.Native.String.{String}
use text.Mathlib.Text.{◌==◌ as str_eq}
use emumet.Prelude.{
  ◌≡◌, refl, Option, none, some, Bool, true, not, List, filter, find?, Bool-cases, ◌⊎◌, inl, inr,
}
use emumet.Kernel.Error.{Result, ok, err}
use emumet.Kernel.Exec.{continue}
use emumet.Kernel.Activity.{Activity, trim_end_slashes, activity_object_id, nested_activity}
use emumet.Kernel.Relation.{Follow, local, remote}
use emumet.Driver.Relations.{approve_follow_if_pending}
use emumet.Driver.Relations.Rows.{goes_between, delete_if_exists-to_row}
use emumet.Driver.RemoteAccounts.{RemoteAccount, find_by_url, with_url}
use emumet.Application.Network.{Network, Outside}
use emumet.Application.Inbox.{
  InboxActivityDto, check_object, handle_undo_follow, approve_from, approve_followed,
  handle_accept_activity, is_local_actor,
}
use emumet.Application.Inbox.Follows.{following}

-- the network after the pending follow of the remote account was approved
abbrev pub approved_by : Outside → InboxActivityDto → RemoteAccount → Network → Network
approved_by env dto account w = record w {
  follows =
      (approve_follow_if_pending env.marked_at (local dto.account_id) (remote account.id)
        w.follows).1;
}

-- the remote account at the url is the one that the activity names as its sender
abbrev pub IsSender : InboxActivityDto → String → RemoteAccount → Network → Type 0
IsSender dto url account w =
    (str_eq (trim_end_slashes dto.activity.actor) (trim_end_slashes url) ≡ true)
    × (find_by_url url w.remote_accounts ≡ (ok (some account), w.remote_accounts))

-- either nothing has changed, or a follow of the sender was approved
abbrev pub ApprovesSender : Outside → InboxActivityDto → Network → Network → Type 0
ApprovesSender env dto w w' =
    (w' ≡ w)
    ⊎ ((url : String) × (account : RemoteAccount) × IsSender dto url account w
        × (w' ≡ approved_by env dto account w))

module _ (env : Outside) (dto : InboxActivityDto) (w : Network) where
  accept_found :
      (url : String) (found : Option RemoteAccount)
      → find_by_url url w.remote_accounts ≡ (ok found, w.remote_accounts)
      → str_eq (trim_end_slashes dto.activity.actor) (trim_end_slashes url) ≡ true
      → ApprovesSender env dto w (approve_from env dto url w).1
  unfolding approve_from
  accept_found url none e same = inl (rw e refl)
  accept_found url (some account) e same = inr (
    url,
    account,
    (same, e),
    rw e (
        approved
          (approve_follow_if_pending env.marked_at (local dto.account_id) (remote account.id)
            w.follows).0),
  )
    where
      approved :
          (r : Result Bool)
          → (continue r (λ x s. (ok (tt {0}), s)) (approved_by env dto account w)).1
            ≡ approved_by env dto account w
      approved (ok b) = refl
      approved (err e) = refl

  accept_from :
      (url : String)
      → str_eq (trim_end_slashes dto.activity.actor) (trim_end_slashes url) ≡ true
      → ApprovesSender env dto w (approve_from env dto url w).1
  unfolding find_by_url
  accept_from url same = accept_found url (find? (with_url url) w.remote_accounts) refl same

  accept_followed :
      (nested_follow : Activity) (url : Option String)
      → activity_object_id nested_follow ≡ url
      → ApprovesSender env dto w (approve_followed env dto nested_follow w).1
  unfolding approve_followed
  accept_followed nested_follow none e = rw e (inl refl)
  accept_followed nested_follow (some url) e =
      rw e
        (elim (Bool-cases (str_eq (trim_end_slashes dto.activity.actor) (trim_end_slashes url))) [
          | inl same ↦ rw same (accept_from url same)
          | inr other ↦ rw other (inl refl)
        ])

  accept_nested :
      (nested : Option Activity)
      → nested_activity env.serde "Follow" dto.activity ≡ nested
      → ApprovesSender env dto w (handle_accept_activity env dto w).1
  unfolding handle_accept_activity
  accept_nested none e = rw e (inl refl)
  accept_nested (some nested) e = rw e (elim (Bool-cases (is_local_actor env dto nested.actor)) [
    | inl own ↦ rw own (accept_followed nested (activity_object_id nested) refl)
    | inr foreign ↦ rw foreign (inl refl)
  ])

  -- Whatever an Accept says, it changes nothing, or it approves the pending follow from the local
  -- account to a stored remote account whose url is the sender's, up to trailing slashes: no account
  -- approves a follow for another.
  pub handle_accept_activity_lem : ApprovesSender env dto w (handle_accept_activity env dto w).1
  handle_accept_activity_lem = accept_nested (nested_activity env.serde "Follow" dto.activity) refl

module _ (env : Outside) (dto : InboxActivityDto) (account : RemoteAccount)
    (follow_activity : Activity) (w : Network) (fs : List Follow)
    (nested : nested_activity env.serde "Follow" dto.activity ≡ some follow_activity)
    (matches : check_object env dto follow_activity ≡ ok tt)
    (known : find_by_url dto.activity.actor w.remote_accounts
      ≡ (ok (some account), w.remote_accounts)) where
  -- An Undo of a Follow, whose object names the local account and whose sender is stored, succeeds: the
  -- follow of the sender to the local account is deleted, and nothing else changes.
  pub handle_undo_follow_lem : handle_undo_follow env dto (following fs w) ≡ (
    ok tt,
    following
        (filter (λ follow. not (goes_between (remote account.id) (local dto.account_id) follow)) fs)
        w,
  )
  unfolding handle_undo_follow
  handle_undo_follow_lem =
      rw
        (
          nested,
          matches,
          known,
          delete_if_exists-to_row (remote account.id) (local dto.account_id) fs,
        )
        refl
