-- ===== src/Application/UpdatePerson/Recipients.antt =====
-- Who is told of a changed profile.
use Prim.Native.String.{String}
use mathlib.Core.List.{append-nil, append_assoc}
use emumet.Prelude.{
  ◌≡◌, refl, sym, ap, Option, none, some, List, [], ◌∷◌, ◌++◌, map, find?, is_none, if◌then◌else◌,
  inl, inr, Bool-cases,
}
use emumet.Kernel.Error.{ok}
use emumet.Kernel.Account.{AccountId}
use emumet.Kernel.Activity.{Activity}
use emumet.Kernel.Relation.{TargetId, local, remote, Follow}
use emumet.Driver.RemoteAccounts.{RemoteAccount, RemoteTable, with_remote_id}
use emumet.Driver.RemoteAccounts as RemoteAccounts
use emumet.Application.Network.{Network, Outside, Delivery, deliver_activity_to_inbox}
use emumet.Application.UpdatePerson.{
  tell_follower, tell_followers, tell_source, deliver_to, inbox_of,
}

-- the inbox of a follower on another server
abbrev pub inbox_at : RemoteTable → TargetId → Option String
inbox_at table (local id) = none
inbox_at table (remote id) = inbox_of (find? (with_remote_id id) table)

abbrev pub cons_some : {A : Type 0} → Option A → List A → List A
cons_some none rest = rest
cons_some (some a) rest = a ∷ rest

-- the inboxes of the approved followers on other servers, in the order of the follows
abbrev pub recipients : RemoteTable → List Follow → List String
recipients table [] = []
recipients table (follow ∷ follows) =
    let rest = recipients table follows in
    if is_none follow.approved_at then rest else cons_some (inbox_at table follow.source) rest

module _ (env : Outside) (account_id : AccountId) (activity : Activity) where
  abbrev pub delivery_to : String → Delivery
  delivery_to inbox_url = record {
    account_id = account_id;
    inbox_url = inbox_url;
    activity = activity;
  }

  abbrev pub delivered : List Delivery → Network → Network
  delivered deliveries w = record w { deliveries = w.deliveries ++ deliveries }

  abbrev deliveries_to : Option String → List Delivery
  deliveries_to none = []
  deliveries_to (some inbox_url) = delivery_to inbox_url ∷ []

  delivered-nil : (w : Network) → w ≡ delivered [] w
  delivered-nil w =
      ap (λ (l : List Delivery). record w { deliveries = l }) (sym (append-nil w.deliveries))

  delivered-delivered :
      (front back : List Delivery) (w : Network)
      → delivered back (delivered front w) ≡ delivered (front ++ back) w
  delivered-delivered front back w =
      ap (λ (l : List Delivery). record w { deliveries = l }) (append_assoc w.deliveries front back)

  deliver_to-eq :
      (inbox_url : Option String) (w : Network)
      → deliver_to env account_id activity inbox_url w
        ≡ (ok tt, delivered (deliveries_to inbox_url) w)
  unfolding deliver_to deliver_activity_to_inbox
  deliver_to-eq none w = ap (λ v. (ok tt, v)) (delivered-nil w)
  deliver_to-eq (some inbox_url) w = refl

  tell_source-eq :
      (source : TargetId) (w : Network)
      → tell_source env account_id activity source w
        ≡ (ok tt, delivered (deliveries_to (inbox_at w.remote_accounts source)) w)
  unfolding tell_source RemoteAccounts.find_by_id
  tell_source-eq (local id) w = ap (λ v. (ok tt, v)) (delivered-nil w)
  tell_source-eq (remote id) w =
      deliver_to-eq (inbox_of (find? (with_remote_id id) w.remote_accounts)) w

  map-cons_some :
      (inbox_url : Option String) (rest : List String)
      → map delivery_to (cons_some inbox_url rest) ≡ deliveries_to inbox_url ++ map delivery_to rest
  map-cons_some none rest = refl
  map-cons_some (some inbox_url) rest = refl

  -- Telling the followers asks for a delivery to the inbox of each approved follower on another
  -- server that is known with one, once and in the order of the follows, changes nothing else, and
  -- succeeds, whichever of the deliveries fail.
  pub tell_followers-recipients :
      (follows : List Follow) (w : Network)
      → tell_followers env account_id activity follows w
        ≡ (ok tt, delivered (map delivery_to (recipients w.remote_accounts follows)) w)
  unfolding tell_followers tell_follower
  tell_followers-recipients [] w = ap (λ v. (ok tt, v)) (delivered-nil w)
  tell_followers-recipients (follow ∷ follows) w = elim (Bool-cases (is_none follow.approved_at)) [
    | inl e ↦ rw e (tell_followers-recipients follows w)
    | inr e ↦ rw (
      e,
      tell_source-eq follow.source w,
      tell_followers-recipients follows
          (delivered (deliveries_to (inbox_at w.remote_accounts follow.source)) w),
      delivered-delivered (deliveries_to (inbox_at w.remote_accounts follow.source))
          (map delivery_to (recipients w.remote_accounts follows)) w,
      map-cons_some (inbox_at w.remote_accounts follow.source)
          (recipients w.remote_accounts follows),
    )
  ]
