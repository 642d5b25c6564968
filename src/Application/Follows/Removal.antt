-- ===== src/Application/Follows/Removal.antt =====
-- What `remove_follows_between` leaves.
use emumet.Prelude.{
  ◌≡◌, ◌∙◌, refl, ap, Bool, false, not, ◌&&◌, List, [], ◌∷◌, map, filter, All, All-filter,
  filter-filter, Bool-cases, inl, inr,
}
use emumet.Kernel.Error.{Result, ok, err}
use emumet.Kernel.Exec.{continue}
use emumet.Kernel.Relation.{TargetId, Follow, same_target}
use emumet.Driver.Relations.{to_row, delete}
use emumet.Driver.Relations.Rows.{has_id, goes_from, goes_between, find_by_source-to_row}
use emumet.Driver.Relations.Tables.{NoClash, IsValid, IsValid-filter}
use emumet.Driver.Relations.Deletion.{other_ids, behind, delete-head, delete-tail}
use emumet.Application.Follows.{FollowTable, delete_each, remove_follows_between}

delete_each-cons :
    (x : Follow) (ds : List Follow) (rows : FollowTable)
    → All (λ d. has_id d.id x ≡ false) ds
    → delete_each ds (to_row x ∷ rows) ≡ behind (to_row x) (delete_each ds rows)
unfolding delete_each
delete_each-cons x [] rows h = refl
delete_each-cons x (d ∷ ds) rows h =
    rw (delete-tail d.id (to_row x) rows (unfold to_row in h.0))
      (go (delete d.id rows).0 (delete d.id rows).1 (λ rows'. delete_each-cons x ds rows' h.1))
  where
    go :
        (r : Result (Unit {0})) (rows' : FollowTable)
        → ((rows' : FollowTable)
            → delete_each ds (to_row x ∷ rows') ≡ behind (to_row x) (delete_each ds rows'))
        → continue r (λ _. delete_each ds) (to_row x ∷ rows')
          ≡ behind (to_row x) (continue r (λ _. delete_each ds) rows')
    go (ok _) rows' ih = ih rows'
    go (err e) rows' ih = refl

-- the relations that are left when those that pass the test are deleted one by one
delete_each-filter :
    (p : Follow → Bool) (rs : List Follow)
    → NoClash rs
    → delete_each (filter p rs) (map to_row rs) ≡ (ok tt, map to_row (filter (λ r. not (p r)) rs))
unfolding delete_each
delete_each-filter p [] h = refl
delete_each-filter p (r ∷ rs) h = elim (Bool-cases (p r)) [
  | inl e ↦ rw e (rw (delete-head r rs h.0) (delete_each-filter p rs h.1))
  | inr e ↦ rw e (
      delete_each-cons r (filter p rs) (map to_row rs)
        (All-filter (λ d. has_id d.id r ≡ false) p rs (other_ids r rs h.0))
      ∙ ap (behind (to_row r)) (delete_each-filter p rs h.1))
]

-- the follow goes neither way between the two
abbrev pub is_apart : TargetId → TargetId → Follow → Bool
is_apart a b r = not (goes_between a b r) && not (goes_between b a r)

-- Of a valid table the follows between the two accounts, in either direction, pending or approved, are
-- deleted, and no other follow is.
pub remove_follows_between_lem :
    (a b : TargetId) (rs : List Follow)
    → IsValid rs
    → remove_follows_between a b (map to_row rs) ≡ (ok tt, map to_row (filter (is_apart a b) rs))
unfolding remove_follows_between
remove_follows_between_lem a b rs h =
    let rest = filter (λ r. not (goes_between a b r)) rs in
    let valid = IsValid-filter (λ r. not (goes_between a b r)) rs h in
    rw
      (
        find_by_source-to_row a rs h.0,
        filter-filter (goes_from a) (λ r. same_target r.destination b) rs,
        delete_each-filter (goes_between a b) rs h.1,
        find_by_source-to_row b rest valid.0,
        filter-filter (goes_from b) (λ r. same_target r.destination a) rest,
        delete_each-filter (goes_between b a) rest valid.1,
        filter-filter (λ r. not (goes_between a b r)) (λ r. not (goes_between b a r)) rs,
      )
      refl
