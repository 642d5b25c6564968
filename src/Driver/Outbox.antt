-- ===== src/Driver/Outbox.antt =====
-- driver/src/database/postgres/outbox_activity.rs and kernel/src/entity/activitypub/
-- outbox_activity.rs: the activities that local accounts sent or have yet to send.
use Prim.Native.String.{String}
use text.Mathlib.Text.{◌==◌ as str_eq}
use mathlib.Core.List.{reverse}
use emumet.Prelude.{
  ℕ, ◌+◌, Option, none, some, Bool, true, ◌&&◌, List, [], ◌∷◌, ◌++◌, ◌==◌, ltb, if◌then◌else◌,
  filter, any, take, length, is_none, is_some,
}
use emumet.Prelude.Sort.{sort_by_key}
use emumet.Kernel.Error.{ok, err, internal}
use emumet.Kernel.Exec.{Exec}
use emumet.Kernel.Event.{OffsetDateTime}
use emumet.Kernel.Account.{AccountId}

pub record OutboxActivity : Type 0 where
  pub id : ℕ
  pub account_id : AccountId
  pub activity_id : String
  pub activity_type : String
  pub object_json : String
  pub created_at : OffsetDateTime
  pub delivered_at : Option OffsetDateTime
  pub attempted_at : Option OffsetDateTime
  pub error : Option String

pub record Outbox : Type 0 where
  pub rows : List OutboxActivity
  -- the next value of the serial column
  pub next_id : ℕ

-- INSERT .. RETURNING id: `activity_id` is unique, and a serial value is drawn either way
unfoldable pub create : OutboxActivity → Exec Outbox ℕ
create activity outbox =
    if any (λ (row : OutboxActivity). str_eq row.activity_id activity.activity_id) outbox.rows
    then (err internal, record outbox { next_id = outbox.next_id + 1 })
    else (
      ok outbox.next_id,
      record {
        rows = outbox.rows ++ record activity { id = outbox.next_id } ∷ [];
        next_id = outbox.next_id + 1;
      },
    )

abbrev is_before : Option ℕ → ℕ → Bool
is_before none id = true
is_before (some cursor) id = ltb id cursor

abbrev is_delivered_of : AccountId → OutboxActivity → Bool
is_delivered_of account_id row = row.account_id == account_id && is_some row.delivered_at

-- WHERE account_id = $1 AND .. AND delivered_at IS NOT NULL ORDER BY id DESC LIMIT $3
unfoldable pub find_by_account_id : AccountId → ℕ → Option ℕ → Exec Outbox (List OutboxActivity)
find_by_account_id account_id limit cursor outbox = (
  ok (
      take limit (
        reverse (
          sort_by_key (λ (row : OutboxActivity). row.id)
            (filter (λ row. is_delivered_of account_id row && is_before cursor row.id)
              outbox.rows)))),
  outbox,
)

unfoldable pub count_by_account_id : AccountId → Exec Outbox ℕ
count_by_account_id account_id outbox =
    (ok (length (filter (is_delivered_of account_id) outbox.rows)), outbox)

-- WHERE delivered_at IS NULL ORDER BY id ASC LIMIT $1
unfoldable pub find_pending_deliveries : ℕ → Exec Outbox (List OutboxActivity)
find_pending_deliveries limit outbox = (
  ok (
      take limit (
        sort_by_key (λ (row : OutboxActivity). row.id)
          (filter (λ (row : OutboxActivity). is_none row.delivered_at) outbox.rows))),
  outbox,
)

update_where : (OutboxActivity → OutboxActivity) → ℕ → List OutboxActivity → List OutboxActivity
update_where change id [] = []
update_where change id (row ∷ rows) =
    (if row.id == id then change row else row) ∷ update_where change id rows

-- `now` is the database's `NOW()`; an id that no row has is no error
unfoldable pub mark_delivered : OffsetDateTime → ℕ → Exec Outbox (Unit {0})
unfolding update_where
mark_delivered now id outbox = (
  ok tt,
  record outbox {
    rows =
        update_where
          (λ row. record row { delivered_at = some now; attempted_at = none; error = none }) id
          outbox.rows;
  },
)

unfoldable pub mark_delivery_attempt : OffsetDateTime → ℕ → Option String → Exec Outbox (Unit {0})
unfolding update_where
mark_delivery_attempt now id error outbox = (
  ok tt,
  record outbox {
    rows =
        update_where (λ row. record row { attempted_at = some now; error = error }) id outbox.rows;
  },
)
