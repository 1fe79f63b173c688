-- ===== src/Channels/Bindings.antt =====
-- `PostgresChannelBindingRepository` of channels/repository.py. A row that a method has selected is
-- locked, so the rest of its transaction is atomic. Only where `reserve` finds no row can another
-- transaction commit between its select and its insert: `between` is what that one does.
pub mod Rules
pub mod Validity
pub mod Permanence
pub mod Fencing
pub mod Refinement
pub mod Frame
use legal_chatbot_ueb_demo_s.Prelude.{
  ℕ, ◌+◌, String, Bool, true, false, not, ◌&&◌, ◌||◌, Option, none, some, ◌∷◌, ltb, ◌==◌, str_eq,
  if◌then◌else◌, Result, ok, err, ◌>>=◌, ◌>>◌, require,
}
use legal_chatbot_ueb_demo_s.Table.{is_some, exists, member, same, first, find, update}
use legal_chatbot_ueb_demo_s.Channels.Models.{
  ErrorCode, persistence_failure, binding_failed, BindingStatus, Datetime, seconds, valid_hmac,
  valid_safe_error_code, BindingReservation, BindingReservationStatus,
}
use legal_chatbot_ueb_demo_s.Channels.Store.{
  Binding, binding_key, Database, Fault, channel_error, unique_violation, integrity_violation, Tx,
  to_channel_error, transact, repository_now,
}

abbrev pub by_identity : String → Binding → Bool
by_identity hmac b = str_eq b.identity_hmac hmac

abbrev is_active : BindingStatus → Bool
is_active BindingStatus.active = true
is_active _ = false

abbrev is_binding : BindingStatus → Bool
is_binding BindingStatus.binding = true
is_binding _ = false

-- The partial unique index on the conversation of the active bindings.
abbrev pub clashes : Binding → Binding → Bool
clashes b r =
    is_active b.status
    && is_active r.status
    && not (r.id == b.id)
    && same r.conversation_id b.conversation_id

-- The foreign key on the conversation.
abbrev pub known : Option ℕ → Database → Bool
known none db = true
known (some c) db = member c db.conversations

-- The flush of a changed row.
flush_update : Binding → Tx (Unit {0})
flush_update b db =
    if exists (clashes b) db.bindings
    then err unique_violation
    else if known b.conversation_id db
    then ok (tt, record db { bindings = update binding_key b db.bindings })
    else err integrity_violation

-- The flush of a new row: its primary key and its identity must be new.
flush_insert : Binding → Tx (Unit {0})
flush_insert b db =
    if is_some (find binding_key b.id db.bindings)
      || exists (by_identity b.identity_hmac) db.bindings
    then err unique_violation
    else ok (tt, record db { bindings = b ∷ db.bindings })

reservation_of_status : BindingStatus → Binding → Result Fault BindingReservation
reservation_of_status BindingStatus.binding b = elim b.lease_expires_at [
  | none ↦ err (channel_error persistence_failure)
  | some lease ↦ ok (record {
    binding_id = b.id;
    status = BindingReservationStatus.reserved;
    conversation_id = none;
    lease_expires_at = some lease;
  })
]
reservation_of_status BindingStatus.active b = elim b.conversation_id [
  | none ↦ err (channel_error persistence_failure)
  | some conversation ↦ ok (record {
    binding_id = b.id;
    status = BindingReservationStatus.active;
    conversation_id = some conversation;
    lease_expires_at = none;
  })
]
reservation_of_status BindingStatus.failed b = ok (record {
  binding_id = b.id;
  status = BindingReservationStatus.failed;
  conversation_id = none;
  lease_expires_at = none;
})

-- `_binding_reservation`
binding_reservation : Binding → Result Fault BindingReservation
unfolding reservation_of_status
binding_reservation b = reservation_of_status b.status b

-- `_processing_binding_reservation`
processing_binding_reservation : Binding → Result Fault BindingReservation
processing_binding_reservation b = elim b.lease_expires_at [
  | none ↦ err (channel_error persistence_failure)
  | some lease ↦ ok (record {
    binding_id = b.id;
    status = BindingReservationStatus.processing;
    conversation_id = none;
    lease_expires_at = some lease;
  })
]

abbrev pub is_live : Option ℕ → ℕ → Bool
is_live none now = false
is_live (some lease) now = ltb now lease

-- The row as the last lines of `_reserve_existing` leave it. (`updated_at` is not modelled.)
abbrev pub rearm : Binding → ℕ → Binding
rearm b lease = record b {
  status = BindingStatus.binding;
  conversation_id = none;
  lease_expires_at = some lease;
  safe_error_code = none;
  activated_at = none;
}

-- `_reserve_existing`: the reservation, and the row that the commit flushes if it was changed. The
-- column holds only the three words of its CHECK constraint, so the guard on any other word is not
-- reached.
reserve_existing :
    BindingStatus → Binding → ℕ → ℕ → Result Fault (BindingReservation × Option Binding)
unfolding binding_reservation processing_binding_reservation
reserve_existing BindingStatus.active b now lease = do r ← binding_reservation b; ok (r, none)
reserve_existing BindingStatus.binding b now lease =
    if is_live b.lease_expires_at now
    then (do r ← processing_binding_reservation b; ok (r, none))
    else (do r ← binding_reservation (rearm b lease); ok (r, some (rearm b lease)))
reserve_existing BindingStatus.failed b now lease = do
  r ← binding_reservation (rearm b lease)
  ok (r, some (rearm b lease))

flush_changed : Option Binding → Tx (Unit {0})
unfolding flush_update
flush_changed none db = ok (tt, db)
flush_changed (some b) db = flush_update b db

pub reserve_row : Binding → ℕ → ℕ → Tx BindingReservation
unfolding reserve_existing flush_changed
reserve_row b now lease db = do
  (r, changed) ← reserve_existing b.status b now lease
  (_, db') ← flush_changed changed db
  ok (r, db')

abbrev pub new_binding : ℕ → String → ℕ → Binding
new_binding fresh hmac lease = record {
  id = fresh;
  identity_hmac = hmac;
  status = BindingStatus.binding;
  conversation_id = none;
  lease_expires_at = some lease;
  safe_error_code = none;
  activated_at = none;
}

pub insert_new : ℕ → String → ℕ → Tx BindingReservation
unfolding flush_insert binding_reservation
insert_new fresh hmac lease db = do
  (_, db') ← flush_insert (new_binding fresh hmac lease) db
  r ← binding_reservation (new_binding fresh hmac lease)
  ok (r, db')

-- `_reserve_after_unique_race`
reserve_after_unique_race : String → ℕ → ℕ → Tx BindingReservation
unfolding reserve_row
reserve_after_unique_race hmac now lease db = elim (first (by_identity hmac) db.bindings) [
  | none ↦ err (channel_error persistence_failure)
  | some b ↦ reserve_row b now lease db
]

-- The `except` clauses of `reserve`, over the outcome of its insert.
pub insert_or_race :
    String
    → ℕ
    → ℕ
    → Database
    → Result Fault (BindingReservation × Database)
    → Result ErrorCode BindingReservation × Database
unfolding reserve_after_unique_race
insert_or_race hmac now lease db (ok (r, db')) = (ok r, db')
insert_or_race hmac now lease db (err unique_violation) =
    transact (reserve_after_unique_race hmac now lease) db
insert_or_race hmac now lease db (err f) = (err (to_channel_error f), db)

reserve_at :
    (Database → Database)
    → ℕ
    → String
    → ℕ
    → ℕ
    → Database
    → Result ErrorCode BindingReservation × Database
unfolding insert_or_race insert_new reserve_row to_channel_error
reserve_at between fresh hmac now lease db = elim (first (by_identity hmac) db.bindings) [
  | none ↦ insert_or_race hmac now lease (between db) (insert_new fresh hmac lease (between db))
  | some b ↦ transact (reserve_row b now lease) db
]

-- The guards of `reserve`.
reserve_time : String → Datetime → Result ErrorCode ℕ
unfolding repository_now
reserve_time hmac now = do t ← repository_now now; require (valid_hmac hmac) binding_failed; ok t

pub reserve :
    (Database → Database)
    → ℕ
    → ℕ
    → String
    → Datetime
    → Database
    → Result ErrorCode BindingReservation × Database
unfolding reserve_time reserve_at
reserve between fresh lease_seconds hmac now db = elim (reserve_time hmac now) [
  | ok t ↦ reserve_at between fresh hmac t (t + seconds lease_seconds) db
  | err e ↦ (err e, db)
]

-- `reserve` from its insert on: its select found no row before other transactions committed `db`.
pub reserve_raced :
    ℕ → ℕ → String → Datetime → Database → Result ErrorCode BindingReservation × Database
unfolding reserve_time insert_or_race insert_new
reserve_raced fresh lease_seconds hmac now db = elim (reserve_time hmac now) [
  | ok t ↦
      let lease = t + seconds lease_seconds in
      insert_or_race hmac t lease db (insert_new fresh hmac lease db)
  | err e ↦ (err e, db)
]

abbrev is_reserved : BindingReservationStatus → Bool
is_reserved BindingReservationStatus.reserved = true
is_reserved _ = false

-- The lease of the row is the one that the reservation names, and it has not run out.
abbrev pub owns_lease : BindingReservation → Binding → ℕ → Bool
owns_lease reservation b now =
    is_binding b.status
    && same b.lease_expires_at reservation.lease_expires_at
    && is_live b.lease_expires_at now

-- What `activate` and `fail` have in common: lock the row, check the lease, write the row.
pub settle : BindingReservation → (Binding → Binding) → ℕ → Tx BindingReservation
unfolding flush_update binding_reservation
settle reservation write now db = elim (find binding_key reservation.binding_id db.bindings) [
  | none ↦ err (channel_error binding_failed)
  | some b ↦
      if owns_lease reservation b now
      then (do (_, db') ← flush_update (write b) db; r ← binding_reservation (write b); ok (r, db'))
      else err (channel_error binding_failed)
]

abbrev pub activated : ℕ → ℕ → Binding → Binding
activated conversation now b = record b {
  status = BindingStatus.active;
  conversation_id = some conversation;
  lease_expires_at = none;
  safe_error_code = none;
  activated_at = some now;
}

abbrev pub failed_with : String → Binding → Binding
failed_with code b = record b {
  status = BindingStatus.failed;
  conversation_id = none;
  lease_expires_at = none;
  safe_error_code = some code;
  activated_at = none;
}

abbrev holds_token : BindingReservation → Bool
holds_token r = is_reserved r.status && is_some r.lease_expires_at

settle_guard : Bool → Datetime → Result ErrorCode ℕ
unfolding repository_now
settle_guard guard now = do t ← repository_now now; require guard binding_failed; ok t

pub activate :
    BindingReservation → ℕ → Datetime → Database → Result ErrorCode BindingReservation × Database
unfolding settle settle_guard to_channel_error
activate reservation conversation now db = elim (settle_guard (holds_token reservation) now) [
  | ok t ↦ transact (settle reservation (activated conversation t) t) db
  | err e ↦ (err e, db)
]

pub fail :
    BindingReservation
    → String
    → Datetime
    → Database
    → Result ErrorCode BindingReservation × Database
unfolding settle settle_guard to_channel_error
fail reservation code now db =
    elim (settle_guard (holds_token reservation && valid_safe_error_code code) now) [
      | ok t ↦ transact (settle reservation (failed_with code) t) db
      | err e ↦ (err e, db)
    ]
