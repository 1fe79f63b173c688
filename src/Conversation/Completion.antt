-- ===== src/Conversation/Completion.antt =====
-- `complete` of `PostgresConversationRepository`, conversation/repository.py.
pub mod Completing
pub mod Answers
mod Rows
mod Distinct
mod Plans
pub mod InTime
use legal_chatbot_ueb_demo_s.Prelude.{
  ◌>>=◌, ◌>>◌, ℕ, suc, ◌+◌, Bool, true, false, not, ◌&&◌, Option, none, some, List, [], ◌∷◌, leb,
  ◌==◌, if◌then◌else◌, Text, Result, ok, err, require,
}
use legal_chatbot_ueb_demo_s.Table.{member, find, update}
use legal_chatbot_ueb_demo_s.Unicode.{Unicode}
use legal_chatbot_ueb_demo_s.Channels.Models.{Datetime, seconds}
use legal_chatbot_ueb_demo_s.Conversation.Models.{
  ConversationErrorCode, expired, conflict, state_invalid, ExchangeStatus,
}
use legal_chatbot_ueb_demo_s.Conversation.Store.{
  ChatResult, Stored, stored, Exchange, exchange_key, Conversation, conversation_key, Database,
  Fault, conversation_error, Tx, to_conversation_error, settled, persisted_exchange, completed_row,
  validation_error, check_violation, foreign_key_violation, unique_violation, known_run,
  distinct_references, references_fit,
}
use legal_chatbot_ueb_demo_s.Conversation.Queries.{
  repository_now, is_processing, in_conversation, is_terminal_in, locked_active_conversation, ids,
  insert_ordered,
}
use legal_chatbot_ueb_demo_s.Conversation.Exchanges.{Reservation}

pub record StateUpdate : Type 0 where
  pub expected_state_version : ℕ
  pub rolling_summary : Option Text
  pub active_topic : Option Text
  pub compacted_exchange_ids : List ℕ

abbrev pub same_ids : List ℕ → List ℕ → Bool
same_ids [] [] = true
same_ids (x ∷ xs) (y ∷ ys) = x == y && same_ids xs ys
same_ids _ _ = false

-- The select of the exchange of a reservation, and the checks on it.
processing_exchange : Reservation → ℕ → Database → Result Fault Exchange
processing_exchange r now db = elim (find exchange_key r.exchange_id db.exchanges) [
  | none ↦ err (conversation_error conflict)
  | some e ↦ do
    require
        (in_conversation r.conversation_id e && e.ordinal == r.ordinal && is_processing e.status)
        (conversation_error conflict)
    elim e.lease_expires_at [
      | none ↦ err (conversation_error expired)
      | some lease ↦ if leb lease now then err (conversation_error expired) else ok e
    ]
]

-- The selected candidates, in the order of their ordinals.
candidate_rows : ℕ → List ℕ → List Exchange → List Exchange
unfolding insert_ordered
candidate_rows conversation plan [] = []
candidate_rows conversation plan (e ∷ es) =
    let rest = candidate_rows conversation plan es in
    if in_conversation conversation e && member e.id plan then insert_ordered e rest else rest

abbrev all_terminal : List Exchange → Bool
all_terminal [] = true
all_terminal (e ∷ es) = not (is_processing e.status) && all_terminal es

-- `_locked_compaction_candidates`
pub locked_candidates : ℕ → List ℕ → List Exchange → Result Fault (List Exchange)
unfolding candidate_rows
locked_candidates conversation plan es =
    let rows = candidate_rows conversation plan es in
    do
      require (same_ids (ids rows) plan && all_terminal rows) (conversation_error conflict)
      ok rows

abbrev pub answered : ChatResult → Exchange → Exchange
answered chat e = record e {
  status = ExchangeStatus.completed;
  lease_expires_at = none;
  result = some (stored chat);
  failure_reason = none;
}

-- The guarded `UPDATE` of the conversation; its guard was checked on the locked row.
abbrev pub advanced : StateUpdate → ℕ → Conversation → Conversation
advanced up expires_at c = record c {
  state_version = suc c.state_version;
  rolling_summary = up.rolling_summary;
  active_topic = up.active_topic;
  expires_at = expires_at;
}

unfoldable pub without : ℕ → List ℕ → List Exchange → List Exchange
without conversation plan [] = []
without conversation plan (e ∷ es) =
    let rest = without conversation plan es in
    if in_conversation conversation e && member e.id plan then rest else e ∷ rest

unfoldable pub terminal_count : ℕ → List Exchange → ℕ
terminal_count conversation [] = 0
terminal_count conversation (e ∷ es) =
    let rest = terminal_count conversation es in
    if is_terminal_in conversation e then suc rest else rest

module _ (u : Unicode) (retention_seconds retained : ℕ) where
  -- The writes of `complete`, once every row is locked and checked.
  write_completion :
      Reservation → ChatResult → StateUpdate → ℕ → Conversation → Exchange → Tx Stored
  unfolding without terminal_count distinct_references
  write_completion r chat up now c e db =
      let exchanges =
        without r.conversation_id r.compacted
          (update exchange_key (answered chat e) db.exchanges) in
      let c' = advanced up (now + seconds retention_seconds) c in
      do
        require (completed_row (stored chat)) check_violation
        require (known_run chat.retrieval_run_id db) foreign_key_violation
        require (distinct_references (stored chat)) unique_violation
        require (leb (terminal_count r.conversation_id exchanges) retained)
            (conversation_error conflict)
        p ← persisted_exchange u (stored chat)
        ok (
          p,
          record db {
            conversations = update conversation_key c' db.conversations;
            exchanges = exchanges;
          },
        )

  unfoldable pub complete_tx : Reservation → ChatResult → StateUpdate → ℕ → Tx Stored
  unfolding locked_active_conversation processing_exchange locked_candidates write_completion
  complete_tx r chat up now db = do
    c ← locked_active_conversation r.conversation_id now db
    require (c.state_version == r.expected_state_version) (conversation_error conflict)
    e ← processing_exchange r now db
    rows ← locked_candidates r.conversation_id r.compacted db.exchanges
    write_completion r chat up now c e db

  -- The guards of `complete`, and the models of the references that `_derived_references` builds.
  complete_guard : Reservation → ChatResult → StateUpdate → Datetime → Result Fault ℕ
  unfolding repository_now
  complete_guard r chat up now = do
    t ← repository_now now
    require (up.expected_state_version == r.expected_state_version)
        (conversation_error state_invalid)
    require (same_ids up.compacted_exchange_ids r.compacted) (conversation_error conflict)
    require (references_fit (stored chat)) validation_error
    ok t

  unfoldable pub complete :
      Reservation
      → ChatResult
      → StateUpdate
      → Datetime
      → Database
      → Result ConversationErrorCode Stored × Database
  unfolding complete_guard complete_tx to_conversation_error
  complete r chat up now db = elim (complete_guard r chat up now) [
    | ok t ↦ settled db (complete_tx r chat up t db)
    | err f ↦ (err (to_conversation_error f), db)
  ]
