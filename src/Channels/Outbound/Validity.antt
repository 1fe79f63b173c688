-- ===== src/Channels/Outbound/Validity.antt =====
-- The constraints of `channel_outbound_deliveries` as an invariant of the steps.
use legal_chatbot_ueb_demo_s.Prelude.{
  ℕ, ◌≡◌, refl, ◌⊎◌, Option, none, some, ◌∷◌, arith, eq_iff, true, false,
}
use legal_chatbot_ueb_demo_s.Table.{
  is_some, exists, find, update, Unique, find_sound, find-update, update-Unique, first-none,
}
use legal_chatbot_ueb_demo_s.Channels.Models.{
  OutboundStatus, DeliveryReceipt, valid_hmac, valid_optional_code, valid_outbound_reservation,
}
use legal_chatbot_ueb_demo_s.Channels.Store.{Delivery, delivery_key, Database}
use legal_chatbot_ueb_demo_s.Channels.Outbound.{
  collides, linked, sends_for, claimed, completed, reservation_for,
}
use legal_chatbot_ueb_demo_s.Channels.Outbound.Effects.{
  row, Effect, nothing, inserts, claims, completes,
}

-- The CHECK constraint `status_shape`.
abbrev Shape : OutboundStatus → Delivery → Type 0
Shape OutboundStatus.pending d =
    (d.attempt_count ≡ 0)
    × (d.sending_at ≡ none)
    × (d.completed_at ≡ none)
    × (d.safe_error_code ≡ none)
Shape OutboundStatus.sending d =
    (d.attempt_count ≡ 1)
    × (is_some d.sending_at ≡ true)
    × (d.completed_at ≡ none)
    × (d.safe_error_code ≡ none)
Shape OutboundStatus.sent d =
    (d.attempt_count ≡ 1)
    × (is_some d.sending_at ≡ true)
    × (is_some d.completed_at ≡ true)
    × (d.safe_error_code ≡ none)
Shape OutboundStatus.abandoned d =
    (is_some d.completed_at ≡ true)
    × (is_some d.safe_error_code ≡ true)
    × ((d.attempt_count ≡ 0) × (d.sending_at ≡ none)
        ⊎ (d.attempt_count ≡ 1) × (is_some d.sending_at ≡ true))
Shape _ d =
    (d.attempt_count ≡ 1)
    × (is_some d.sending_at ≡ true)
    × (is_some d.completed_at ≡ true)
    × (is_some d.safe_error_code ≡ true)

abbrev pub IsShaped : Delivery → Type 0
IsShaped d = Shape d.status d

-- The other CHECK constraints, and the foreign keys. (The range of `attempt_count` is part of
-- `status_shape`; the kind of the channel and the status have one form only.)
abbrev pub IsChecked : Database → Delivery → Type 0
IsChecked db d =
    (valid_hmac d.delivery_hmac ≡ true)
    × (valid_optional_code d.safe_error_code ≡ true)
    × (linked d db ≡ true)

-- The primary key, the unique indexes, the CHECK constraints and the foreign keys.
pub record IsValid (db : Database) : Type 0 where
  pub ids : Unique delivery_key db.deliveries
  pub shaped : (k : ℕ) (d : Delivery) → row db k ≡ some d → IsShaped d
  pub checked : (k : ℕ) (d : Delivery) → row db k ≡ some d → IsChecked db d
  pub deliveries :
      (i j : ℕ) (d e : Delivery)
      → row db i ≡ some d
      → row db j ≡ some e
      → d.delivery_hmac ≡ e.delivery_hmac
      → i ≡ j
  pub exchanges :
      (i j : ℕ) (d e : Delivery)
      → row db i ≡ some d
      → row db j ≡ some e
      → d.binding_id ≡ e.binding_id
      → d.exchange_id ≡ e.exchange_id
      → i ≡ j
  pub senders :
      (i j : ℕ) (d e : Delivery)
      → row db i ≡ some d
      → row db j ≡ some e
      → d.status ≡ OutboundStatus.sending
      → e.status ≡ OutboundStatus.sending
      → d.binding_id ≡ e.binding_id
      → i ≡ j

claimed-IsShaped :
    (d : Delivery) (now : ℕ)
    → d.status ≡ OutboundStatus.pending
    → IsShaped d
    → IsShaped (claimed now d)
claimed-IsShaped d now e s = ground arith

completed-IsShaped :
    (d : Delivery) (receipt : DeliveryReceipt) (now : ℕ)
    → d.status ≡ OutboundStatus.sending
    → valid_outbound_reservation (reservation_for (completed receipt now d)) ≡ true
    → IsShaped d
    → IsShaped (completed receipt now d)
completed-IsShaped d receipt now e valid s = ground arith

module _ (db : Database) (v : IsValid db) where
  inserted-IsValid :
      (d : Delivery)
      → row db d.id ≡ none
      → d.status ≡ OutboundStatus.pending
      → IsShaped d
      → IsChecked db d
      → exists (collides d) db.deliveries ≡ false
      → IsValid (record db { deliveries = d ∷ db.deliveries })
  unfolding find
  inserted-IsValid d new_id pending shape checks free = record {
    ids = (new_id, v.ids);
    shaped = λ k x h. ground (arith, v.shaped k x);
    checked = λ k x h. ground (arith, v.checked k x);
    deliveries = λ i j x y p q e. ground (
      arith,
      v.deliveries i j x y,
      first-none delivery_key (collides d) db.deliveries i x,
      first-none delivery_key (collides d) db.deliveries j y,
      eq_iff x.delivery_hmac d.delivery_hmac,
      eq_iff y.delivery_hmac d.delivery_hmac,
    );
    exchanges = λ i j x y p q e f. ground (
      arith,
      v.exchanges i j x y,
      first-none delivery_key (collides d) db.deliveries i x,
      first-none delivery_key (collides d) db.deliveries j y,
    );
    senders = λ i j x y p q sx sy e. ground (arith, v.senders i j x y);
  }

  module _ (d d' : Delivery) (here : row db d.id ≡ some d) (same_id : d'.id ≡ d.id)
      (same_hmac : d'.delivery_hmac ≡ d.delivery_hmac) (same_binding : d'.binding_id ≡ d.binding_id)
      (same_exchange : d'.exchange_id ≡ d.exchange_id) (shape : IsShaped d')
      (code : valid_optional_code d'.safe_error_code ≡ true)
      (alone : (j : ℕ) (y : Delivery)
        → row db j ≡ some y
        → d'.status ≡ OutboundStatus.sending
        → y.status ≡ OutboundStatus.sending
        → d'.binding_id ≡ y.binding_id
        → d.id ≡ j) where
    updated-IsValid : IsValid (record db { deliveries = update delivery_key d' db.deliveries })
    updated-IsValid = record {
      ids = update-Unique delivery_key d' db.deliveries v.ids;
      shaped = λ k x h. ground (arith, find-update delivery_key k d' db.deliveries, v.shaped k x);
      checked = λ k x h. ground (
        arith,
        find-update delivery_key k d' db.deliveries,
        v.checked k x,
        v.checked d.id d here,
      );
      deliveries = λ i j x y p q e. ground (
        arith,
        find-update delivery_key i d' db.deliveries,
        find-update delivery_key j d' db.deliveries,
        v.deliveries i j x y,
        v.deliveries d.id j d y,
        v.deliveries i d.id x d,
      );
      exchanges = λ i j x y p q e f. ground (
        arith,
        find-update delivery_key i d' db.deliveries,
        find-update delivery_key j d' db.deliveries,
        v.exchanges i j x y,
        v.exchanges d.id j d y,
        v.exchanges i d.id x d,
      );
      senders = λ i j x y p q sx sy e. ground (
        arith,
        find-update delivery_key i d' db.deliveries,
        find-update delivery_key j d' db.deliveries,
        v.senders i j x y,
        alone j y,
        alone i x,
      );
    }

-- A delivery table that meets its constraints meets them after every effect that a call of the
-- repository has on it.
pub Effect-IsValid :
    (db : Database) (g : Option ℕ) (db' : Database) → Effect db g db' → IsValid db → IsValid db'
Effect-IsValid db g db' (nothing _ e) v = rw e v
Effect-IsValid db g db' (inserts d message _ new_id free fits links fresh_row e) v =
    rw e (
      inserted-IsValid db v d new_id (ground arith) (ground arith) (fits, ground arith, links) free)
Effect-IsValid db g db' (claims d now _ here pending free e) v = rw e (
    updated-IsValid db v d (claimed now d) here refl refl refl refl
      (claimed-IsShaped d now pending (v.shaped d.id d here))
      (ground (arith, v.checked d.id d here))
      (λ j y there _ sy same. ground (
        arith,
        first-none delivery_key (sends_for (claimed now d)) db.deliveries j y,
        find_sound delivery_key j db.deliveries y,
      )))
Effect-IsValid db g db' (completes d receipt now _ here sending valid e) v = rw e (
    updated-IsValid db v d (completed receipt now d) here refl refl refl refl
      (completed-IsShaped d receipt now sending valid (v.shaped d.id d here)) (ground arith)
      (λ j y there s sy same. absurd (ground arith)))
