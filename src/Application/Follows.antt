-- ===== src/Application/Follows.antt =====
-- The helpers on follows of application/src/service/: `remove_follows_between` of block.rs, and
-- `find_existing_following`, `find_approved_follow` and `delete_approved_follow` of
-- activitypub/outbound_{follow,unfollow}.rs.
pub mod Removal
use emumet.Prelude.{Option, none, some, ◌&&◌, List, [], ◌∷◌, filter, find?, is_some, if◌then◌else◌}
use emumet.Kernel.Error.{not_found, ok_or}
use emumet.Kernel.Exec.{Exec, pure, lift, ◌>>=◌, ◌>>◌}
use emumet.Kernel.Event.{OffsetDateTime}
use emumet.Kernel.Relation.{TargetId, Follow, same_target}
use emumet.Driver.Relations.{RelationRow, find_by_source, delete}

abbrev pub FollowTable : Type 0
FollowTable = List (RelationRow (Option OffsetDateTime))

-- `for follow in .. { repository.delete(executor, follow.id()).await?; }`
unfoldable pub delete_each : List Follow → Exec FollowTable (Unit {0})
delete_each [] = pure tt
delete_each (follow ∷ follows) = delete follow.id >> delete_each follows

unfoldable pub remove_follows_between : TargetId → TargetId → Exec FollowTable (Unit {0})
unfolding delete_each
remove_follows_between a b = do
  followings_of_a ← find_by_source a
  delete_each (filter (λ follow. same_target follow.destination b) followings_of_a)
  followings_of_b ← find_by_source b
  delete_each (filter (λ follow. same_target follow.destination a) followings_of_b)

unfoldable pub find_existing_following : TargetId → TargetId → Exec FollowTable (Option Follow)
find_existing_following source destination = do
  followings ← find_by_source source
  pure (
      find?
        (λ follow. same_target follow.source source && same_target follow.destination destination)
        followings)

-- `Option::filter` on the approval
abbrev pub approved_only : Option Follow → Option Follow
approved_only none = none
approved_only (some follow) = if is_some follow.approved_at then some follow else none

unfoldable pub find_approved_follow : TargetId → TargetId → Exec FollowTable Follow
unfolding find_existing_following
find_approved_follow source destination = do
  existing ← find_existing_following source destination
  lift (ok_or not_found (approved_only existing))

unfoldable pub delete_approved_follow : TargetId → TargetId → Exec FollowTable (Unit {0})
unfolding find_approved_follow
delete_approved_follow source destination = do
  follow ← find_approved_follow source destination
  delete follow.id
