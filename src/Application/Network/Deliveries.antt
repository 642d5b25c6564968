-- ===== src/Application/Network/Deliveries.antt =====
-- A delivery writes to the outbox alone, whatever the other server answers.
use emumet.Prelude.{ℕ, ◌≡◌, refl}
use emumet.Kernel.Error.{Result, ok, err}
use emumet.Driver.Outbox.{mark_delivery_attempt}
use emumet.Application.Network.{
  Network, Outside, Delivery, mark, deliver_activity_to_inbox, deliver_outbox_activity,
}

-- only the outbox and the deliveries differ
pub record SameRelations (w w' : Network) : Type 0 where
  pub accounts : w'.accounts ≡ w.accounts
  pub remote_accounts : w'.remote_accounts ≡ w.remote_accounts
  pub follows : w'.follows ≡ w.follows
  pub blocks : w'.blocks ≡ w.blocks
  pub mutes : w'.mutes ≡ w.mutes

abbrev pub unchanged : (w : Network) → SameRelations w w
unchanged w = record {
  accounts = refl;
  remote_accounts = refl;
  follows = refl;
  blocks = refl;
  mutes = refl;
}

mark-SameRelations :
    (env : Outside) (outbox_id : ℕ) (answer : Result (Unit {0})) (w w' : Network)
    → SameRelations w w'
    → SameRelations w (mark env outbox_id answer w').1
unfolding mark mark_delivery_attempt
mark-SameRelations env outbox_id (ok _) w w' h = assumption
mark-SameRelations env outbox_id (err e) w w' h = assumption

pub deliver_outbox_activity-SameRelations :
    (env : Outside) (outbox_id : ℕ) (delivery : Delivery) (w : Network)
    → SameRelations w (deliver_outbox_activity env outbox_id delivery w).1
unfolding deliver_outbox_activity deliver_activity_to_inbox
deliver_outbox_activity-SameRelations env outbox_id delivery w =
    mark-SameRelations env outbox_id (env.deliver delivery) w
      (deliver_activity_to_inbox env delivery w).1
      (record {
        accounts = refl;
        remote_accounts = refl;
        follows = refl;
        blocks = refl;
        mutes = refl;
      })
