-- ===== src/Channels/Bindings/Frame.antt =====
-- The methods of the binding repository leave `channel_outbound_deliveries` alone, and the rows that
-- its foreign keys name stay.
use legal_chatbot_ueb_demo_s.Prelude.{
  ℕ, ◌+◌, String, true, ◌≡◌, refl, Option, none, some, Option-cases, Result-cases, inl, inr, arith,
}
use legal_chatbot_ueb_demo_s.Table.{is_some, find, find-update}
use legal_chatbot_ueb_demo_s.Channels.Models.{Datetime, seconds, BindingReservation}
use legal_chatbot_ueb_demo_s.Channels.Store.{Binding, binding_key, Database, Commits}
use legal_chatbot_ueb_demo_s.Channels.Bindings.{
  flush_update, flush_insert, flush_changed, reserve_existing, reserve_row, insert_new,
  reserve_time, reserve, reserve_raced, settle, activated, failed_with, activate, fail,
}
use legal_chatbot_ueb_demo_s.Channels.Bindings.Rules.{
  insert_or_race_rule, reserve_rule, activate_rule, fail_rule,
}

module _ (db : Database) where
  abbrev pub Kept : Database → Type 0
  Kept db' =
      (db'.deliveries ≡ db.deliveries)
      × (db'.exchanges ≡ db.exchanges)
      × ((k : ℕ)
          → is_some (find binding_key k db.bindings) ≡ true
          → is_some (find binding_key k db'.bindings) ≡ true)

  pub kept_all : Kept db
  kept_all = (refl, refl, λ k there. there)

  flush_changed-Kept : (changed : Option Binding) → Commits Kept (flush_changed changed) db
  unfolding flush_changed flush_update
  flush_changed-Kept none r db' h = let same_db : db' ≡ db = ground arith in rw same_db kept_all
  flush_changed-Kept (some b) r db' h = (
    ground arith,
    ground arith,
    λ k there. ground (arith, find-update binding_key k b db.bindings),
  )

  reserve_row-Kept : (b : Binding) (now lease : ℕ) → Commits Kept (reserve_row b now lease) db
  unfolding reserve_row
  reserve_row-Kept b now lease r db' h =
      elim (Result-cases (reserve_existing b.status b now lease)) [
        | inl ((r', changed), e) ↦ flush_changed-Kept changed tt db' (ground arith)
        | inr (f, e) ↦ absurd (ground arith)
      ]

  insert_new-Kept :
      (fresh : ℕ) (hmac : String) (lease : ℕ) → Commits Kept (insert_new fresh hmac lease) db
  unfolding insert_new flush_insert find
  insert_new-Kept fresh hmac lease r db' h = (ground arith, ground arith, λ k there. ground arith)

  settle-Kept :
      (res : BindingReservation) (write : Binding → Binding) (t : ℕ)
      → Commits Kept (settle res write t) db
  unfolding settle flush_update
  settle-Kept res write t r db' h =
      elim (Option-cases (find binding_key res.binding_id db.bindings)) [
        | inl gone ↦ absurd (ground arith)
        | inr (b, there) ↦ (
          ground arith,
          ground arith,
          λ k here. ground (arith, find-update binding_key k (write b) db.bindings),
        )
      ]

  pub reserve-Kept :
      (fresh lease_seconds : ℕ) (hmac : String) (now : Datetime)
      → Kept (reserve (λ d. d) fresh lease_seconds hmac now db).1
  reserve-Kept fresh lease_seconds hmac now =
      reserve_rule Kept (λ d. d) fresh lease_seconds hmac now db kept_all kept_all
        (λ _ lease. insert_new-Kept fresh hmac lease) (λ t lease b _. reserve_row-Kept b t lease)
        (λ t lease b _. reserve_row-Kept b t lease)

  pub reserve_raced-Kept :
      (fresh lease_seconds : ℕ) (hmac : String) (now : Datetime)
      → Kept (reserve_raced fresh lease_seconds hmac now db).1
  unfolding reserve_raced
  reserve_raced-Kept fresh lease_seconds hmac now = elim (Result-cases (reserve_time hmac now)) [
    | inl (t, e) ↦
        rw (e, reserve_raced)
          (insert_or_race_rule Kept hmac t (t + seconds lease_seconds) db _ kept_all
            (λ t' lease b _. reserve_row-Kept b t' lease)
            (insert_new-Kept fresh hmac (t + seconds lease_seconds)))
    | inr (f, e) ↦ rw (e, reserve_raced) kept_all
  ]

  pub activate-Kept :
      (res : BindingReservation) (conversation : ℕ) (now : Datetime)
      → Kept (activate res conversation now db).1
  activate-Kept res conversation now =
      activate_rule Kept res now db kept_all conversation
        (λ t. settle-Kept res (activated conversation t) t)

  pub fail-Kept :
      (res : BindingReservation) (code : String) (now : Datetime) → Kept (fail res code now db).1
  fail-Kept res code now =
      fail_rule Kept res now db kept_all code (λ _ t. settle-Kept res (failed_with code) t)
