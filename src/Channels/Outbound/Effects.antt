-- ===== src/Channels/Outbound/Effects.antt =====
-- The calls of the outbound repository as a step relation: each call leaves the deliveries alone,
-- inserts a pending row, claims a pending row, or completes a row that is being sent.
use legal_chatbot_ueb_demo_s.Prelude.{
  ℕ, ◌≡◌, refl, inl, inr, Option, none, some, ◌∷◌, Result, ok, err, arith, Option-cases,
  Result-cases, Bool-cases, ◌&&◌, ◌==◌, true, false, if◌then◌else◌,
}
use legal_chatbot_ueb_demo_s.Table.{exists, first, find, update, find_sound}
use legal_chatbot_ueb_demo_s.Channels.Models.{
  ErrorCode, OutboundStatus, Datetime, DeliveryReceipt, OutboundReservation, OutboundMessage,
  valid_hmac, valid_outbound_reservation,
}
use legal_chatbot_ueb_demo_s.Channels.Store.{
  Delivery, delivery_key, Database, Fault, unique_violation, Tx, transact, repository_now,
}
use legal_chatbot_ueb_demo_s.Channels.Outbound.{
  collides, linked, sends_for, reservation_for, observe, insert_new, insert_or_race,
  reserve_after_unique_race, reserve_at, reserve, reserve_raced, in_sending, mark_sending_tx,
  mark_sending, complete_tx, complete, claimed, completed, new_delivery, guarded, is_reserved,
  outbound_reservation, claim, is_pending, settle, is_sending, locked_delivery, mapped_status,
  by_delivery,
}

abbrev pub row : Database → ℕ → Option Delivery
row db k = find delivery_key k db.deliveries

-- The delivery that a call allows its caller to send.
abbrev pub grant : Result ErrorCode OutboundReservation → Option ℕ
grant (ok r) = if in_sending r.status then some r.outbound_id else none
grant (err e) = none

pub data Effect (db : Database) (g : Option ℕ) (db' : Database) : Type 0 where
  nothing : g ≡ none → db' ≡ db → Effect db g db'
  inserts :
      (d : Delivery) (message : OutboundMessage)
      → g ≡ none
      → row db d.id ≡ none
      → exists (collides d) db.deliveries ≡ false
      → valid_hmac d.delivery_hmac ≡ true
      → linked d db ≡ true
      → d ≡ new_delivery d.id d.binding_id message
      → db' ≡ record db { deliveries = d ∷ db.deliveries }
      → Effect db g db'
  claims :
      (d : Delivery) (now : ℕ)
      → g ≡ some d.id
      → row db d.id ≡ some d
      → d.status ≡ OutboundStatus.pending
      → exists (sends_for (claimed now d)) db.deliveries ≡ false
      → db' ≡ record db { deliveries = update delivery_key (claimed now d) db.deliveries }
      → Effect db g db'
  completes :
      (d : Delivery) (receipt : DeliveryReceipt) (now : ℕ)
      → g ≡ none
      → row db d.id ≡ some d
      → d.status ≡ OutboundStatus.sending
      → valid_outbound_reservation (reservation_for (completed receipt now d)) ≡ true
      → db' ≡ record db { deliveries = update delivery_key (completed receipt now d) db.deliveries }
      → Effect db g db'

-- The effect of a call with this outcome.
abbrev pub EffectOf : Database → Result ErrorCode OutboundReservation × Database → Type 0
EffectOf db (r, db') = Effect db (grant r) db'

transact-Effect :
    (tx : Tx OutboundReservation) (db : Database)
    → ((r : OutboundReservation) (db' : Database)
        → tx db ≡ ok (r, db')
        → Effect db (grant (ok r)) db')
    → EffectOf db (transact tx db)
transact-Effect tx db commits = go (tx db) refl
  where
    go :
        (o : Result Fault (OutboundReservation × Database))
        → tx db ≡ o
        → EffectOf db (transact (λ _. o) db)
    go (ok (r, db')) e = commits r db' e
    go (err f) e = nothing refl refl

-- A row that is only reported grants nothing.
pub reported :
    (d : Delivery) (r : OutboundReservation) → outbound_reservation d ≡ ok r → grant (ok r) ≡ none
unfolding outbound_reservation
reported d r h = ground (arith, unsent d.status)
  where
    unsent : (s : OutboundStatus) → in_sending (mapped_status s) ≡ false
    unsent OutboundStatus.pending = refl
    unsent _ = refl

module _ (res : OutboundReservation) (t : ℕ) (db : Database) (d : Delivery)
    (here : row db d.id ≡ some d) (same_id : d.id ≡ res.outbound_id) (r : OutboundReservation)
    (db' : Database) where
  claim-Effect : claim res t d db ≡ ok (r, db') → Effect db (grant (ok r)) db'
  unfolding claim
  claim-Effect h = elim (Bool-cases (is_pending d.status && d.attempt_count == 0)) [
    | inl free ↦ claims d t (ground arith) here (ground arith) (ground arith) (ground arith)
    | inr taken ↦ nothing (ground (arith, reported d r)) (ground arith)
  ]

  settle-Effect :
      (receipt : DeliveryReceipt)
      → settle receipt t d db ≡ ok (r, db')
      → Effect db (grant (ok r)) db'
  unfolding settle
  settle-Effect receipt h = elim (Bool-cases (is_sending d.status && d.attempt_count == 1)) [
    | inl open_row ↦
        completes d receipt t (ground (arith, reported (completed receipt t d) r)) here
          (ground arith) (ground arith) (ground arith)
    | inr other ↦ nothing (ground (arith, reported d r)) (ground arith)
  ]

module _ (res : OutboundReservation) (t : ℕ) (db : Database) (r : OutboundReservation)
    (db' : Database) where
  -- The row that `_locked_delivery` returns is that of its primary key.
  locked :
      (d : Delivery)
      → locked_delivery res db ≡ ok d
      → (row db d.id ≡ some d) × (d.id ≡ res.outbound_id)
  unfolding locked_delivery
  locked d h = elim (Option-cases (row db res.outbound_id)) [
    | inl gone ↦ absurd (ground arith)
    | inr (x, here) ↦
        let same_id = find_sound delivery_key res.outbound_id db.deliveries x here in
        (ground arith, ground arith)
  ]

  mark_sending_tx-Effect : mark_sending_tx res t db ≡ ok (r, db') → Effect db (grant (ok r)) db'
  unfolding mark_sending_tx
  mark_sending_tx-Effect h = elim (Result-cases (locked_delivery res db)) [
    | inl (d, e) ↦
        let (here, same_id) = locked d e in
        claim-Effect res t db d here same_id r db' (ground arith)
    | inr (f, e) ↦ absurd (ground arith)
  ]

  complete_tx-Effect :
      (receipt : DeliveryReceipt)
      → complete_tx res receipt t db ≡ ok (r, db')
      → Effect db (grant (ok r)) db'
  unfolding complete_tx
  complete_tx-Effect receipt h = elim (Result-cases (locked_delivery res db)) [
    | inl (d, e) ↦
        let (here, same_id) = locked d e in
        settle-Effect res t db d here same_id r db' receipt (ground arith)
    | inr (f, e) ↦ absurd (ground arith)
  ]

module _ (fresh binding_id : ℕ) (message : OutboundMessage) (db : Database) where
  insert_new-Effect :
      (r : OutboundReservation) (db' : Database)
      → insert_new fresh binding_id message db ≡ ok (r, db')
      → Effect db (grant (ok r)) db'
  unfolding insert_new
  insert_new-Effect r db' h = elim (Option-cases (row db fresh)) [
    | inr (d, there) ↦ absurd (ground arith)
    | inl new_id ↦
        inserts (new_delivery fresh binding_id message) message
          (ground (arith, reported (new_delivery fresh binding_id message) r)) new_id (ground arith)
          (ground arith) (ground arith) refl (ground arith)
  ]

  observed :
      (r : OutboundReservation) → observe binding_id message db ≡ ok (some r) → grant (ok r) ≡ none
  unfolding observe
  observed r h = elim (Option-cases (first (by_delivery message.delivery_hmac) db.deliveries)) [
    | inl gone ↦ absurd (ground arith)
    | inr (d, there) ↦ ground (arith, reported d r)
  ]

  race-Effect :
      (r : OutboundReservation) (db' : Database)
      → reserve_after_unique_race binding_id message db ≡ ok (r, db')
      → Effect db (grant (ok r)) db'
  unfolding reserve_after_unique_race
  race-Effect r db' h = nothing (ground (arith, observed r)) (ground arith)

  insert_or_race-Effect :
      (o : Result Fault (OutboundReservation × Database))
      → insert_new fresh binding_id message db ≡ o
      → EffectOf db (insert_or_race binding_id message db o)
  unfolding insert_or_race
  insert_or_race-Effect (ok (r, db')) e = insert_new-Effect r db' e
  insert_or_race-Effect (err unique_violation) e =
      transact-Effect (reserve_after_unique_race binding_id message) db race-Effect
  insert_or_race-Effect (err _) e = nothing refl refl

-- `reserve` has its effect on the database that its insert meets.
pub reserve-Effect :
    (fresh binding_id : ℕ) (message : OutboundMessage) (now : Datetime) (db : Database)
    → EffectOf db (reserve (λ d. d) fresh binding_id message now db)
unfolding reserve
reserve-Effect fresh binding_id message now db = elim (Result-cases (repository_now now)) [
  | inl (t, e) ↦ rw (e, reserve) (go (observe binding_id message db) refl)
  | inr (f, e) ↦ rw (e, reserve) (nothing refl refl)
]
  where
    go :
        (o : Result Fault (Option OutboundReservation))
        → observe binding_id message db ≡ o
        → EffectOf db (reserve_at (λ d. d) fresh binding_id message db o)
    go (ok none) e = insert_or_race-Effect fresh binding_id message db _ refl
    go (ok (some r)) e = nothing (observed fresh binding_id message db r e) refl
    go (err f) e = nothing refl refl

pub reserve_raced-Effect :
    (fresh binding_id : ℕ) (message : OutboundMessage) (now : Datetime) (db : Database)
    → EffectOf db (reserve_raced fresh binding_id message now db)
unfolding reserve_raced
reserve_raced-Effect fresh binding_id message now db = elim (Result-cases (repository_now now)) [
  | inl (t, e) ↦ rw (e, reserve_raced) (insert_or_race-Effect fresh binding_id message db _ refl)
  | inr (f, e) ↦ rw (e, reserve_raced) (nothing refl refl)
]

pub mark_sending-Effect :
    (res : OutboundReservation) (now : Datetime) (db : Database)
    → EffectOf db (mark_sending res now db)
unfolding mark_sending
mark_sending-Effect res now db = elim (Result-cases (guarded (is_reserved res.status) now)) [
  | inl (t, e) ↦
      rw (e, mark_sending)
        (transact-Effect (mark_sending_tx res t) db
          (λ r db'. mark_sending_tx-Effect res t db r db'))
  | inr (f, e) ↦ rw (e, mark_sending) (nothing refl refl)
]

pub complete-Effect :
    (res : OutboundReservation) (receipt : DeliveryReceipt) (now : Datetime) (db : Database)
    → EffectOf db (complete res receipt now db)
unfolding complete
complete-Effect res receipt now db = elim (Result-cases (guarded (in_sending res.status) now)) [
  | inl (t, e) ↦
      rw (e, complete)
        (transact-Effect (complete_tx res receipt t) db
          (λ r db'. complete_tx-Effect res t db r db' receipt))
  | inr (f, e) ↦ rw (e, complete) (nothing refl refl)
]
