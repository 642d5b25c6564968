-- ===== src/Driver/Relations/Approvals.antt =====
-- The statements on follows alone: the followers of an account, and the approval of a follow.
use emumet.Prelude.{
  ◌≡◌, refl, some, Bool, true, false, ◌&&◌, List, [], ◌∷◌, map, if◌then◌else◌, filter, any, is_some,
  is_none, All, All-filter, filter-map, any-map,
}
use mathlib.Core.Path.{ap₂}
use emumet.Kernel.Error.{ok}
use emumet.Kernel.Event.{OffsetDateTime}
use emumet.Kernel.Relation.{TargetId, Follow, same_target}
use emumet.Driver.Relations.{
  to_row, has_destination, find_followers, approve_where, is_pending_between,
  approve_follow_if_pending,
}
use emumet.Driver.Relations.Rows.{
  IsProper, goes_between, has_destination-to_row, is_between-to_row, collect-map,
}

is_follower-to_row :
    (d : TargetId) (r : Follow)
    → (has_destination d (to_row r) && is_some (to_row r).approved_at)
      ≡ (same_target r.destination d && is_some r.approved_at)
unfolding to_row
is_follower-to_row d r = rw (has_destination-to_row d r) refl

-- A query by destination returns the approved follows to it.
pub find_followers-to_row :
    (d : TargetId) (rs : List Follow)
    → All IsProper rs
    → find_followers d (map to_row rs)
      ≡ (ok (filter (λ r. same_target r.destination d && is_some r.approved_at) rs), map to_row rs)
unfolding find_followers
find_followers-to_row d rs h =
    rw
      (
        filter-map to_row (λ row. has_destination d row && is_some row.approved_at)
            (λ r. same_target r.destination d && is_some r.approved_at) (is_follower-to_row d) rs,
        collect-map (filter (λ r. same_target r.destination d && is_some r.approved_at) rs)
            (All-filter IsProper (λ r. same_target r.destination d && is_some r.approved_at) rs h),
      )
      refl

-- the follow with its approval, if it is pending and of the pair
abbrev pub approve : OffsetDateTime → TargetId → TargetId → Follow → Follow
approve now s d r =
    if goes_between s d r && is_none r.approved_at then record r { approved_at = some now } else r

approve_if-to_row :
    (now : OffsetDateTime) (r : Follow) (b : Bool)
    → (if b then record (to_row r) { approved_at = some now } else to_row r)
      ≡ to_row (if b then record r { approved_at = some now } else r)
unfolding to_row
approve_if-to_row now r true = refl
approve_if-to_row now r false = refl

is_pending_between-to_row :
    (s d : TargetId) (r : Follow)
    → is_pending_between s d (to_row r) ≡ (goes_between s d r && is_none r.approved_at)
unfolding to_row
is_pending_between-to_row s d r = rw (is_between-to_row s d r) refl

approve_where-to_row :
    (now : OffsetDateTime) (s d : TargetId) (rs : List Follow)
    → approve_where now (is_pending_between s d) (map to_row rs)
      ≡ map to_row (map (approve now s d) rs)
unfolding approve_where
approve_where-to_row now s d [] = refl
approve_where-to_row now s d (r ∷ rs) = rw (is_pending_between-to_row s d r) (
    ap₂ ◌∷◌ (approve_if-to_row now r (goes_between s d r && is_none r.approved_at))
      (approve_where-to_row now s d rs))

-- An approval is given to the pending follows of the pair.
pub approve_follow_if_pending-to_row :
    (now : OffsetDateTime) (s d : TargetId) (rs : List Follow)
    → approve_follow_if_pending now s d (map to_row rs) ≡ (
      ok (any (λ r. goes_between s d r && is_none r.approved_at) rs),
      map to_row (map (approve now s d) rs),
    )
unfolding approve_follow_if_pending
approve_follow_if_pending-to_row now s d rs =
    rw
      (
        any-map to_row (is_pending_between s d) (λ r. goes_between s d r && is_none r.approved_at)
            (is_pending_between-to_row s d) rs,
        approve_where-to_row now s d rs,
      )
      refl
