-- ===== src/Conversation/Completion/InTime.antt =====
-- A reservation of conversation/repository.py and its completion in time.
use legal_chatbot_ueb_demo_s.Prelude.{
  Option-cases, inl, inr, ℕ, suc, sym, ap, subst, ◌∙◌, ◌≤◌, ◌<◌, ◌≡◌, true, false, some, ◌∷◌,
  String, ok, arith,
}
use legal_chatbot_ueb_demo_s.Table.{find, update, member, Unique}
use legal_chatbot_ueb_demo_s.Unicode.{Unicode, normalize_safe_text}
use legal_chatbot_ueb_demo_s.Channels.Models.{aware}
use legal_chatbot_ueb_demo_s.Conversation.Store.{
  ChatResult, Stored, stored, exchange_key, Conversation, Database, settled, persisted_exchange,
  completed_row, known_run, distinct_references, references_fit,
}
use legal_chatbot_ueb_demo_s.Conversation.Queries.{
  compaction_plan, locked_active_conversation, repository_now,
}
use legal_chatbot_ueb_demo_s.Conversation.Exchanges.{Reservation}
use legal_chatbot_ueb_demo_s.Conversation.Exchanges.Reserved.{IsReserved}
use legal_chatbot_ueb_demo_s.Conversation.Completion.Rows.{same_ids_refl}
use legal_chatbot_ueb_demo_s.Conversation.Completion.Plans.{
  planned_found, planned_room, planned_spares,
}
use legal_chatbot_ueb_demo_s.Conversation.Completion.{
  StateUpdate, processing_exchange, locked_candidates, answered, without, terminal_count,
  write_completion, complete_tx, complete_guard, complete,
}
use legal_chatbot_ueb_demo_s.Conversation.Exchanges.Reserving.{locked_found}

-- A stored exchange that is accepted has few and distinct references.
persisted_references :
    (u : Unicode) (chat : ChatResult) (p : Stored)
    → persisted_exchange u (stored chat) ≡ ok p
    → (distinct_references (stored chat) ≡ true) × (references_fit (stored chat) ≡ true)
unfolding persisted_exchange
persisted_references u chat p h = elim (Option-cases (normalize_safe_text u chat.answer)) [
  | inl bad ↦ absurd (ground arith)
  | inr (t, good) ↦ ground arith
]

module _ (retained conversation_id : ℕ) (key : String) (lease later : ℕ) (r : Reservation)
    (db : Database) (row : IsReserved retained conversation_id key lease r db)
    (unique : Unique exchange_key db.exchanges) where
  reserved_found : later < lease → processing_exchange r later db ≡ ok row.exchange
  unfolding processing_exchange find
  reserved_found h = rw row.written (
      ground
        (arith, row.same_id, row.same_conversation, row.same_ordinal, row.processing, row.leased))

  pub spared : member row.exchange.id r.compacted ≡ false
  spared =
      let unique' = subst (Unique exchange_key) row.written unique in
      let plan : r.compacted
          ≡ compaction_plan retained r.conversation_id (row.exchange ∷ row.others) =
        row.plan ∙ ap (compaction_plan retained r.conversation_id) row.written in
      rw plan (
        planned_spares retained r.conversation_id row.exchange row.others unique'
          (ground (arith, row.same_conversation)) (ground (arith, row.processing)))

  one_more :
      (chat : ChatResult)
      → terminal_count r.conversation_id (
          without r.conversation_id r.compacted
            (update exchange_key (answered chat row.exchange) db.exchanges))
        ≤ suc
            (terminal_count r.conversation_id (without r.conversation_id r.compacted db.exchanges))
  unfolding terminal_count without update
  one_more chat = rw row.written (ground (arith, row.same_conversation, row.processing, spared))

  -- With the exchange completed and the planned ones gone, at most the limit are terminal.
  completed_count :
      (chat : ChatResult)
      → 1 ≤ retained
      → terminal_count r.conversation_id (
          without r.conversation_id r.compacted
            (update exchange_key (answered chat row.exchange) db.exchanges))
        ≤ retained
  completed_count chat room =
      let before =
        subst
          (λ plan.
            suc (terminal_count r.conversation_id (without r.conversation_id plan db.exchanges))
            ≤ retained)
          (sym row.plan) (planned_room retained r.conversation_id db.exchanges unique room) in
      omega (arith, one_more chat)

  module _ (u : Unicode) (retention_seconds : ℕ) (chat : ChatResult) (p : Stored)
      (up : StateUpdate) where
    written_in_time :
        (c : Conversation)
        → 1 ≤ retained
        → completed_row (stored chat) ≡ true
        → known_run chat.retrieval_run_id db ≡ true
        → persisted_exchange u (stored chat) ≡ ok p
        → (settled db
            (write_completion u retention_seconds retained r chat up later c row.exchange db)).0
          ≡ ok p
    unfolding write_completion
    written_in_time c room fits known stored = ground (
      arith,
      stored,
      fits,
      known,
      persisted_references u chat p stored,
      completed_count chat room,
    )

    guard_in_time :
        up.expected_state_version ≡ r.expected_state_version
        → up.compacted_exchange_ids ≡ r.compacted
        → persisted_exchange u (stored chat) ≡ ok p
        → complete_guard u retention_seconds retained r chat up (aware later) ≡ ok later
    unfolding complete_guard repository_now
    guard_in_time versions updated stored =
        ground (
          arith,
          versions,
          updated,
          same_ids_refl r.compacted,
          persisted_references u chat p stored,
        )

    transaction_in_time :
        (c : Conversation)
        → locked_active_conversation r.conversation_id later db ≡ ok c
        → later < lease
        → complete_tx u retention_seconds retained r chat up later db
          ≡ write_completion u retention_seconds retained r chat up later c row.exchange db
    unfolding complete_tx
    transaction_in_time c active alive =
        let there : some row.conversation ≡ some c =
          sym row.found ∙ locked_found r.conversation_id later db c active in
        let version : c.state_version ≡ r.expected_state_version = ground (arith, row.version) in
        let candidates =
          ap (λ plan. locked_candidates r.conversation_id plan db.exchanges) row.plan
          ∙ planned_found retained r.conversation_id db.exchanges unique in
        ground (arith, active, version, reserved_found alive, candidates)

    pub reserved_completes :
        (c : Conversation)
        → locked_active_conversation r.conversation_id later db ≡ ok c
        → later < lease
        → 1 ≤ retained
        → up.expected_state_version ≡ r.expected_state_version
        → up.compacted_exchange_ids ≡ r.compacted
        → completed_row (stored chat) ≡ true
        → known_run chat.retrieval_run_id db ≡ true
        → persisted_exchange u (stored chat) ≡ ok p
        → (complete u retention_seconds retained r chat up (aware later) db).0 ≡ ok p
    unfolding complete
    reserved_completes c active alive room versions updated fits known stored =
        rw (guard_in_time versions updated stored, complete)
          (rw (transaction_in_time c active alive) (written_in_time c room fits known stored))
