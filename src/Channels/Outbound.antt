-- ===== src/Channels/Outbound.antt =====
-- `PostgresChannelOutboundRepository` of channels/repository.py. As in Bindings, `between` is what
-- other transactions commit between the select of `reserve` that finds no row and its insert.
pub mod Effects
pub mod Validity
pub mod AtMostOnce
pub mod Names
use legal_chatbot_ueb_demo_s.Prelude.{
  ℕ, String, Bool, true, false, not, ◌&&◌, ◌||◌, Option, none, some, ◌∷◌, ◌==◌, str_eq,
  if◌then◌else◌, Result, ok, err, ◌>>=◌, ◌>>◌, require,
}
use legal_chatbot_ueb_demo_s.Table.{is_some, exists, member, first, find, update}
use legal_chatbot_ueb_demo_s.Channels.Models.{
  ErrorCode, persistence_failure, outbound_state_invalid, BindingStatus, OutboundStatus,
  ReceiptStatus, Datetime, DeliveryReceipt, OutboundReservation, OutboundReservationStatus,
  valid_hmac, valid_outbound_reservation, OutboundMessage,
}
use legal_chatbot_ueb_demo_s.Channels.Store.{
  Binding, binding_key, Delivery, delivery_key, Database, Fault, channel_error, unique_violation,
  integrity_violation, Tx, to_channel_error, transact, repository_now,
}

abbrev pub by_delivery : String → Delivery → Bool
by_delivery hmac d = str_eq d.delivery_hmac hmac

abbrev pub is_pending : OutboundStatus → Bool
is_pending OutboundStatus.pending = true
is_pending _ = false

abbrev pub is_sending : OutboundStatus → Bool
is_sending OutboundStatus.sending = true
is_sending _ = false

-- The partial unique index: one `SENDING` row for each binding.
abbrev pub sends_for : Delivery → Delivery → Bool
sends_for d r =
    is_sending d.status && is_sending r.status && not (r.id == d.id) && r.binding_id == d.binding_id

flush_update : Delivery → Tx (Unit {0})
flush_update d db =
    if exists (sends_for d) db.deliveries
    then err unique_violation
    else ok (tt, record db { deliveries = update delivery_key d db.deliveries })

-- The unique indexes on the binding with its exchange, and on the delivery.
abbrev pub collides : Delivery → Delivery → Bool
collides d r =
    r.binding_id == d.binding_id && r.exchange_id == d.exchange_id
    || str_eq r.delivery_hmac d.delivery_hmac

-- The foreign keys.
abbrev pub linked : Delivery → Database → Bool
linked d db =
    member d.exchange_id db.exchanges && is_some (find binding_key d.binding_id db.bindings)

-- The flush of a new row. Its CHECK on the HMAC is the one that a message has passed.
flush_insert : Delivery → Tx (Unit {0})
flush_insert d db =
    if not (valid_hmac d.delivery_hmac)
    then err integrity_violation
    else if is_some (find delivery_key d.id db.deliveries) || exists (collides d) db.deliveries
    then err unique_violation
    else if linked d db
    then ok (tt, record db { deliveries = d ∷ db.deliveries })
    else err integrity_violation

-- The dictionary of `_outbound_reservation`.
abbrev pub mapped_status : OutboundStatus → OutboundReservationStatus
mapped_status OutboundStatus.pending = OutboundReservationStatus.reserved
mapped_status OutboundStatus.sending = OutboundReservationStatus.processing
mapped_status OutboundStatus.sent = OutboundReservationStatus.sent
mapped_status OutboundStatus.failed = OutboundReservationStatus.failed
mapped_status OutboundStatus.unknown = OutboundReservationStatus.unknown
mapped_status OutboundStatus.abandoned = OutboundReservationStatus.abandoned

abbrev pub reservation_for : Delivery → OutboundReservation
reservation_for d = record {
  outbound_id = d.id;
  binding_id = d.binding_id;
  exchange_id = d.exchange_id;
  status = mapped_status d.status;
  attempt_count = d.attempt_count;
  safe_error_code = d.safe_error_code;
}

-- `_outbound_reservation`: the model's validators may refuse the row.
pub outbound_reservation : Delivery → Result Fault OutboundReservation
outbound_reservation d =
    if valid_outbound_reservation (reservation_for d)
    then ok (reservation_for d)
    else err (channel_error persistence_failure)

abbrev is_active_for : String → Binding → Bool
is_active_for hmac b = elim b.status [
  | BindingStatus.active ↦ str_eq b.identity_hmac hmac
  | _ ↦ false
]

-- `_require_active_binding`
require_active_binding : ℕ → String → Database → Result Fault (Unit {0})
require_active_binding binding_id hmac db = elim (find binding_key binding_id db.bindings) [
  | none ↦ err (channel_error outbound_state_invalid)
  | some b ↦ require (is_active_for hmac b) (channel_error outbound_state_invalid)
]

-- `_existing_delivery_reservation`
existing_delivery_reservation : Delivery → ℕ → ℕ → Result Fault OutboundReservation
unfolding outbound_reservation
existing_delivery_reservation d binding_id exchange_id =
    if d.binding_id == binding_id && d.exchange_id == exchange_id
    then outbound_reservation d
    else err (channel_error outbound_state_invalid)

abbrev pub new_delivery : ℕ → ℕ → OutboundMessage → Delivery
new_delivery fresh binding_id message = record {
  id = fresh;
  binding_id = binding_id;
  exchange_id = message.exchange_id;
  delivery_hmac = message.delivery_hmac;
  status = OutboundStatus.pending;
  safe_error_code = none;
  attempt_count = 0;
  sending_at = none;
  completed_at = none;
}

pub insert_new : ℕ → ℕ → OutboundMessage → Tx OutboundReservation
unfolding flush_insert outbound_reservation
insert_new fresh binding_id message db = do
  (_, db') ← flush_insert (new_delivery fresh binding_id message) db
  r ← outbound_reservation (new_delivery fresh binding_id message)
  ok (r, db')

-- The select of `reserve` and of its repetition after a lost race: a row is only reported.
observe : ℕ → OutboundMessage → Database → Result Fault (Option OutboundReservation)
unfolding require_active_binding existing_delivery_reservation
observe binding_id message db = do
  require_active_binding binding_id message.identity_hmac db
  elim (first (by_delivery message.delivery_hmac) db.deliveries) [
    | none ↦ ok none
    | some d ↦ do r ← existing_delivery_reservation d binding_id message.exchange_id; ok (some r)
  ]

abbrev found : Option OutboundReservation → Result Fault OutboundReservation
found none = err (channel_error persistence_failure)
found (some r) = ok r

-- `_reserve_after_unique_race`
reserve_after_unique_race : ℕ → OutboundMessage → Tx OutboundReservation
unfolding observe
reserve_after_unique_race binding_id message db = do
  seen ← observe binding_id message db
  r ← found seen
  ok (r, db)

-- The `except` clauses of `reserve`, over the outcome of its insert.
insert_or_race :
    ℕ
    → OutboundMessage
    → Database
    → Result Fault (OutboundReservation × Database)
    → Result ErrorCode OutboundReservation × Database
unfolding reserve_after_unique_race
insert_or_race binding_id message db (ok (r, db')) = (ok r, db')
insert_or_race binding_id message db (err unique_violation) =
    transact (reserve_after_unique_race binding_id message) db
insert_or_race binding_id message db (err f) = (err (to_channel_error f), db)

reserve_at :
    (Database → Database)
    → ℕ
    → ℕ
    → OutboundMessage
    → Database
    → Result Fault (Option OutboundReservation)
    → Result ErrorCode OutboundReservation × Database
unfolding insert_or_race insert_new to_channel_error
reserve_at between fresh binding_id message db (err f) = (err (to_channel_error f), db)
reserve_at between fresh binding_id message db (ok (some r)) = (ok r, db)
reserve_at between fresh binding_id message db (ok none) =
    insert_or_race binding_id message (between db)
      (insert_new fresh binding_id message (between db))

pub reserve :
    (Database → Database)
    → ℕ
    → ℕ
    → OutboundMessage
    → Datetime
    → Database
    → Result ErrorCode OutboundReservation × Database
unfolding reserve_at observe repository_now
reserve between fresh binding_id message now db = elim (repository_now now) [
  | ok t ↦ reserve_at between fresh binding_id message db (observe binding_id message db)
  | err e ↦ (err e, db)
]

-- `reserve` from its insert on: its select found no row before other transactions committed `db`.
pub reserve_raced :
    ℕ → ℕ → OutboundMessage → Datetime → Database → Result ErrorCode OutboundReservation × Database
unfolding reserve_at repository_now
reserve_raced fresh binding_id message now db = elim (repository_now now) [
  | ok t ↦ reserve_at (λ d. d) fresh binding_id message db (ok none)
  | err e ↦ (err e, db)
]

-- `_locked_delivery`
locked_delivery : OutboundReservation → Database → Result Fault Delivery
locked_delivery res db = elim (find delivery_key res.outbound_id db.deliveries) [
  | none ↦ err (channel_error outbound_state_invalid)
  | some d ↦
      if d.binding_id == res.binding_id && d.exchange_id == res.exchange_id
      then ok d
      else err (channel_error outbound_state_invalid)
]

abbrev pub claimed : ℕ → Delivery → Delivery
claimed now d = record d {
  status = OutboundStatus.sending;
  attempt_count = 1;
  sending_at = some now;
}

-- `locked_delivery` has checked the identifiers, so the guarded `UPDATE` hits the row if it is
-- pending with no attempt; otherwise the row is read again, as it is.
claim : OutboundReservation → ℕ → Delivery → Tx OutboundReservation
unfolding flush_update outbound_reservation
claim res now d db =
    if is_pending d.status && d.attempt_count == 0
    then (do
      (_, db') ← flush_update (claimed now d) db
      ok (
        record {
          outbound_id = res.outbound_id;
          binding_id = res.binding_id;
          exchange_id = res.exchange_id;
          status = OutboundReservationStatus.sending;
          attempt_count = 1;
          safe_error_code = none;
        },
        db',
      ))
    else (do r ← outbound_reservation d; ok (r, db))

pub mark_sending_tx : OutboundReservation → ℕ → Tx OutboundReservation
unfolding claim locked_delivery
mark_sending_tx res now db = do d ← locked_delivery res db; claim res now d db

abbrev is_reserved : OutboundReservationStatus → Bool
is_reserved OutboundReservationStatus.reserved = true
is_reserved _ = false

abbrev pub in_sending : OutboundReservationStatus → Bool
in_sending OutboundReservationStatus.sending = true
in_sending _ = false

guarded : Bool → Datetime → Result ErrorCode ℕ
unfolding repository_now
guarded guard now = do t ← repository_now now; require guard outbound_state_invalid; ok t

pub mark_sending :
    OutboundReservation → Datetime → Database → Result ErrorCode OutboundReservation × Database
unfolding mark_sending_tx guarded to_channel_error
mark_sending res now db = elim (guarded (is_reserved res.status) now) [
  | ok t ↦ transact (mark_sending_tx res t) db
  | err e ↦ (err e, db)
]

abbrev is_terminal : OutboundStatus → Bool
is_terminal OutboundStatus.pending = false
is_terminal OutboundStatus.sending = false
is_terminal _ = true

-- `_completion_state`
abbrev pub completion_state : DeliveryReceipt → OutboundStatus × Option String
completion_state receipt = elim receipt.status [
  | ReceiptStatus.sent ↦ (OutboundStatus.sent, none)
  | ReceiptStatus.rejected ↦ (OutboundStatus.failed, receipt.safe_error_code)
  | _ ↦ (OutboundStatus.unknown, receipt.safe_error_code)
]

abbrev pub completed : DeliveryReceipt → ℕ → Delivery → Delivery
completed receipt now d = record d {
  status = (completion_state receipt).0;
  safe_error_code = (completion_state receipt).1;
  completed_at = some now;
}

settle : DeliveryReceipt → ℕ → Delivery → Tx OutboundReservation
unfolding flush_update outbound_reservation
settle receipt now d db =
    if is_terminal d.status
    then (do r ← outbound_reservation d; ok (r, db))
    else if is_sending d.status && d.attempt_count == 1
    then (do
      (_, db') ← flush_update (completed receipt now d) db
      r ← outbound_reservation (completed receipt now d)
      ok (r, db'))
    else err (channel_error outbound_state_invalid)

pub complete_tx : OutboundReservation → DeliveryReceipt → ℕ → Tx OutboundReservation
unfolding settle locked_delivery
complete_tx res receipt now db = do d ← locked_delivery res db; settle receipt now d db

pub complete :
    OutboundReservation
    → DeliveryReceipt
    → Datetime
    → Database
    → Result ErrorCode OutboundReservation × Database
unfolding complete_tx guarded to_channel_error
complete res receipt now db = elim (guarded (in_sending res.status) now) [
  | ok t ↦ transact (complete_tx res receipt t) db
  | err e ↦ (err e, db)
]
