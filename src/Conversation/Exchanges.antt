-- ===== src/Conversation/Exchanges.antt =====
-- `PostgresConversationRepository` of conversation/repository.py: create_conversation, reserve,
-- and its helpers. A conversation row that a method has selected is locked, so the rest of its
-- transaction is atomic.
pub mod Reserving
pub mod Reserved
pub mod Again
use legal_chatbot_ueb_demo_s.Prelude.{
  ◌>>=◌, ◌>>◌, ℕ, suc, ◌+◌, String, Bool, not, ◌&&◌, ◌||◌, none, some, List, ◌∷◌, leb, ◌==◌,
  if◌then◌else◌, length, Text, Result, ok, err, require,
}
use legal_chatbot_ueb_demo_s.Table.{is_some, exists, first, find}
use legal_chatbot_ueb_demo_s.Unicode.{Unicode, normalize_safe_text}
use legal_chatbot_ueb_demo_s.Channels.Models.{Datetime, seconds}
use legal_chatbot_ueb_demo_s.Conversation.Models.{
  ConversationErrorCode, busy, delivery_invalid, ExchangeStatus, ConversationRequest,
  delivery_id_max_chars, Settings,
}
use legal_chatbot_ueb_demo_s.Conversation.State.{Snapshot, Candidate}
use legal_chatbot_ueb_demo_s.Conversation.Snapshots.{planned_candidates, snapshot_for_conversation}
use legal_chatbot_ueb_demo_s.Conversation.Store.{
  Stored, Exchange, Conversation, conversation_key, Database, Fault, conversation_error,
  validation_error, unique_violation, Tx, to_conversation_error, settled, persisted_exchange,
}
use legal_chatbot_ueb_demo_s.Conversation.Queries.{
  repository_now, is_processing, in_conversation, is_processing_in, by_key,
  locked_active_conversation, abandon_stale, maximum_ordinal, compaction_plan,
}

pub record Reservation : Type 0 where
  pub conversation_id : ℕ
  pub exchange_id : ℕ
  pub ordinal : ℕ
  pub expected_state_version : ℕ
  pub snapshot : Snapshot
  pub compacted : List ℕ
  pub candidates : List Candidate

pub data ReservationResult : Type 0 where
  reserved : Reservation → ReservationResult
  duplicate_completed : ℕ → ℕ → Stored → ReservationResult
  duplicate_processing : ℕ → ℕ → ReservationResult
  duplicate_terminal : ℕ → ℕ → ReservationResult

-- The unique constraints and the partial unique index on the processing exchange.
abbrev pub collides : Exchange → Exchange → Bool
collides e x =
    x.id == e.id
    || by_key e.conversation_id e.delivery_key x
    || (in_conversation e.conversation_id x && x.ordinal == e.ordinal)
    || (is_processing e.status && is_processing_in e.conversation_id x)

flush_insert : Exchange → Tx (Unit {0})
flush_insert e db =
    if exists (collides e) db.exchanges
    then err unique_violation
    else ok (tt, record db { exchanges = e ∷ db.exchanges })

module _ (u : Unicode) (sha256 : Text → String) where
  -- `delivery_key_sha256`
  pub delivery_key : Text → Result Fault String
  delivery_key delivery_id = elim (normalize_safe_text u delivery_id) [
    | none ↦ err (conversation_error delivery_invalid)
    | some t ↦
        if leb (length t) delivery_id_max_chars
        then ok (sha256 t)
        else err (conversation_error delivery_invalid)
  ]

  existing_of_status : ExchangeStatus → Exchange → Result Fault ReservationResult
  existing_of_status ExchangeStatus.completed e = elim e.result [
    | none ↦ err validation_error
    | some r ↦ do p ← persisted_exchange u r; ok (duplicate_completed e.conversation_id e.id p)
  ]
  existing_of_status ExchangeStatus.processing e = ok (duplicate_processing e.conversation_id e.id)
  existing_of_status _ e = ok (duplicate_terminal e.conversation_id e.id)

  -- `_reservation_for_existing`
  reservation_for_existing : Exchange → Result Fault ReservationResult
  unfolding existing_of_status
  reservation_for_existing e = existing_of_status e.status e

  abbrev new_exchange : ℕ → ConversationRequest → String → ℕ → ℕ → Exchange
  new_exchange fresh request key ordinal lease = record {
    id = fresh;
    conversation_id = request.conversation_id;
    delivery_key = key;
    ordinal = ordinal;
    status = ExchangeStatus.processing;
    lease_expires_at = some lease;
    user_text = request.text;
    result = none;
    failure_reason = none;
  }

  -- The part of `reserve` that runs when no exchange has the delivery key.
  reserve_new :
      ℕ → ℕ → Settings → ConversationRequest → String → Conversation → ℕ → Tx ReservationResult
  unfolding flush_insert compaction_plan planned_candidates snapshot_for_conversation
  reserve_new fresh lease s request key c now db = do
    require (not (exists (is_processing_in c.id) db.exchanges)) (conversation_error busy)
    let ordinal = suc (maximum_ordinal c.id db.exchanges) in
        do
          (_, db') ← flush_insert (new_exchange fresh request key ordinal lease) db
          candidates ← planned_candidates u s.retained_exchange_limit c.id db'.exchanges
          snapshot ← snapshot_for_conversation u s c now db'.exchanges
          ok (
            reserved (record {
              conversation_id = c.id;
              exchange_id = fresh;
              ordinal = ordinal;
              expected_state_version = c.state_version;
              snapshot = snapshot;
              compacted = compaction_plan s.retained_exchange_limit c.id db'.exchanges;
              candidates = candidates;
            }),
            db',
          )

  pub reserve_tx : ℕ → Settings → ConversationRequest → String → ℕ → Tx ReservationResult
  unfolding locked_active_conversation reservation_for_existing reserve_new
  reserve_tx fresh s request key now db = do
    c ← locked_active_conversation request.conversation_id now db
    let db1 = record db { exchanges = abandon_stale c.id now db.exchanges } in
        elim (first (by_key c.id key) db1.exchanges) [
          | some e ↦ do r ← reservation_for_existing e; ok (r, db1)
          | none ↦
              reserve_new fresh (now + seconds s.processing_lease_seconds) s request key c now db1
        ]

  busy_on_failure : Result Fault ReservationResult → Result Fault ReservationResult
  busy_on_failure (ok r) = ok r
  busy_on_failure (err (conversation_error code)) = err (conversation_error code)
  busy_on_failure (err f) = err (conversation_error busy)

  -- `_reservation_after_integrity_race`
  reservation_after_race : ConversationRequest → String → Database → Result Fault ReservationResult
  unfolding reservation_for_existing busy_on_failure
  reservation_after_race request key db =
      elim (first (by_key request.conversation_id key) db.exchanges) [
        | some e ↦ busy_on_failure (reservation_for_existing e)
        | none ↦ err (conversation_error busy)
      ]

  -- The `except` clauses of `reserve`, over the outcome of its transaction.
  reserved_or_race :
      ConversationRequest
      → String
      → Database
      → Result Fault (ReservationResult × Database)
      → Result ConversationErrorCode ReservationResult × Database
  unfolding reservation_after_race to_conversation_error
  reserved_or_race request key db (ok (r, db')) = (ok r, db')
  reserved_or_race request key db (err unique_violation) =
      settled db (do r ← reservation_after_race request key db; ok (r, db))
  reserved_or_race request key db (err f) = (err (to_conversation_error f), db)

  reserve_guard : Datetime → ConversationRequest → Result Fault (ℕ × String)
  unfolding repository_now delivery_key
  reserve_guard now request = do
    t ← repository_now now
    key ← delivery_key request.delivery_id
    ok (t, key)

  unfoldable pub reserve :
      ℕ
      → Settings
      → ConversationRequest
      → Datetime
      → Database
      → Result ConversationErrorCode ReservationResult × Database
  unfolding reserve_guard reserved_or_race reserve_tx to_conversation_error
  reserve fresh s request now db = elim (reserve_guard now request) [
    | ok (t, key) ↦ reserved_or_race request key db (reserve_tx fresh s request key t db)
    | err f ↦ (err (to_conversation_error f), db)
  ]

abbrev new_conversation : ℕ → ℕ → Conversation
new_conversation fresh expires_at = record {
  id = fresh;
  state_version = 0;
  rolling_summary = none;
  active_topic = none;
  expires_at = expires_at;
  deleted_at = none;
}

pub create_tx : ℕ → ℕ → Tx ℕ
create_tx fresh expires_at db =
    if is_some (find conversation_key fresh db.conversations)
    then err unique_violation
    else ok
        (fresh, record db { conversations = new_conversation fresh expires_at ∷ db.conversations })

pub create_conversation : ℕ → ℕ → Datetime → Database → Result ConversationErrorCode ℕ × Database
unfolding create_tx repository_now to_conversation_error
create_conversation fresh retention_seconds now db = elim (repository_now now) [
  | ok t ↦ settled db (create_tx fresh (t + seconds retention_seconds) db)
  | err f ↦ (err (to_conversation_error f), db)
]
