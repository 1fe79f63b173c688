-- ===== src/Conversation/Service/Idempotence.antt =====
-- A delivery of conversation/service.py that is answered twice gets the same answer.
use legal_chatbot_ueb_demo_s.Conversation.Service.Processed.{fresh-Processed, Processed}
use legal_chatbot_ueb_demo_s.Prelude.{
  ℕ, sym, ap, subst, ◌∙◌, ◌+◌, ◌≡◌, refl, true, false, some, List, ◌∷◌, String, Text, Result, ok,
  arith, eq_iff,
}
use legal_chatbot_ueb_demo_s.Table.{find_sound, first, find, update, Unique}
use legal_chatbot_ueb_demo_s.Unicode.{Unicode, normalized, normalize_safe_text}
use legal_chatbot_ueb_demo_s.Unicode.Substrings.{ClosedUnderSubstring}
use legal_chatbot_ueb_demo_s.Channels.Models.{Datetime, aware, seconds}
use legal_chatbot_ueb_demo_s.Conversation.Models.{
  ConversationErrorCode, ConversationRequest, ExchangeStatus, Settings,
}
use legal_chatbot_ueb_demo_s.Conversation.Store.{
  ChatResult, Citation, Stored, stored, Exchange, exchange_key, Conversation, conversation_key,
  Database, persisted_exchange,
}
use legal_chatbot_ueb_demo_s.Conversation.Queries.{
  by_key, abandon_stale, locked_active_conversation,
}
use legal_chatbot_ueb_demo_s.Conversation.Exchanges.{Reservation, reserved, reserve, delivery_key}
use legal_chatbot_ueb_demo_s.Conversation.Exchanges.Reserving.{
  locked_found, reserve-Reserves, Reserves-Unique,
}
use legal_chatbot_ueb_demo_s.Conversation.Exchanges.Reserved.{IsReserved, reserve-IsReserved}
use legal_chatbot_ueb_demo_s.Conversation.Exchanges.Again.{reserve_again}
use legal_chatbot_ueb_demo_s.Conversation.Completion.{StateUpdate, complete, without, answered}
use legal_chatbot_ueb_demo_s.Conversation.Completion.Completing.{
  Completes, CompletesOr, complete-Completes,
}
use legal_chatbot_ueb_demo_s.Conversation.Completion.InTime.{spared}
use legal_chatbot_ueb_demo_s.Conversation.Policy.Contracts.{ChatRequest}
use legal_chatbot_ueb_demo_s.Conversation.Service.{
  Reply, Answered, result_of, replay_completed, after_reserve, respond,
}
use legal_chatbot_ueb_demo_s.Conversation.Service.Replays.{IsGrounded, Resolves, replayed_lem}

-- The contract of a stored exchange keeps the answer of a grounded result.
persisted_same :
    (u : Unicode) (chat : ChatResult) (p : Stored)
    → normalized u chat.answer ≡ chat.answer
    → persisted_exchange u (stored chat) ≡ ok p
    → p ≡ stored chat
unfolding persisted_exchange normalize_safe_text
persisted_same u chat p stable h = ground (arith, stable)

-- After a completion, the exchange of the reservation is the first with its delivery key.
module _ (u : Unicode) (retention retained conversation_id : ℕ) (key : String) (lease : ℕ)
    (r : Reservation) (chat : ChatResult) (up : StateUpdate) (now : Datetime) (db db' : Database)
    (p : Stored) (row : IsReserved retained conversation_id key lease r db)
    (unique : Unique exchange_key db.exchanges)
    (done : Completes u retention retained r chat up now db p db') where
  same_exchange : done.exchange ≡ row.exchange
  unfolding find
  same_exchange =
      let there : find exchange_key r.exchange_id (row.exchange ∷ row.others) ≡ some done.exchange =
        subst (λ es. find exchange_key r.exchange_id es ≡ some done.exchange) row.written
          done.selected in
      ground (arith, row.same_id)

  without_first :
      (rest : List Exchange)
      → without r.conversation_id r.compacted
          (update exchange_key (answered chat row.exchange) (row.exchange ∷ rest))
        ≡ answered chat row.exchange ∷ without r.conversation_id r.compacted rest
  unfolding without update
  without_first rest =
      let free = spared retained conversation_id key lease 0 r db row unique in ground (arith, free)

  exchanges_after :
      db'.exchanges ≡ answered chat row.exchange ∷ without r.conversation_id r.compacted row.others
  exchanges_after =
      ap (λ (d : Database). d.exchanges) done.written
      ∙ ap
          (λ (e : Exchange).
            without r.conversation_id r.compacted
              (update exchange_key (answered chat e) db.exchanges))
          same_exchange
      ∙ ap
          (λ es.
            without r.conversation_id r.compacted
              (update exchange_key (answered chat row.exchange) es))
          row.written
      ∙ without_first row.others

  found_again :
      (t : ℕ)
      → first (by_key r.conversation_id key) (abandon_stale r.conversation_id t db'.exchanges)
        ≡ some (answered chat row.exchange)
  unfolding first abandon_stale
  found_again t =
      rw exchanges_after (ground (arith, row.same_conversation, row.keyed, (eq_iff key key).1 refl))

module _ (u : Unicode) (closed : ClosedUnderSubstring u) (resolver : ℕ → ℕ → Reply Citation)
    (sha256 : Text → String) (s : Settings) (grounded_chat : ChatRequest → Reply ChatResult)
    (meanwhile : Database → Database) where
  replay_lem :
      (request : ConversationRequest) (conversation exchange : ℕ) (chat : ChatResult)
      → conversation ≡ request.conversation_id
      → IsGrounded u chat
      → Resolves resolver chat.citations
      → replay_completed u resolver request conversation exchange (stored chat)
        ≡ ok (result_of conversation exchange ExchangeStatus.completed true (some chat))
  unfolding replay_completed
  replay_lem request conversation exchange chat asked_one g known =
      ground (arith, asked_one, replayed_lem u resolver chat g chat.outcome refl known)

  Completes-of :
      (retention retained : ℕ) (r : Reservation) (chat : ChatResult) (up : StateUpdate)
      (now : Datetime) (db : Database) (o : Result ConversationErrorCode Stored × Database)
      (p : Stored) (db' : Database)
      → CompletesOr u retention retained r chat up now db o
      → o ≡ (ok p, db')
      → Completes u retention retained r chat up now db p db'
  Completes-of retention retained r chat up now db o p db' c e =
      subst (CompletesOr u retention retained r chat up now db) e c

  -- The delivery of a reservation that has been completed, once more.
  answer_again :
      (fresh : ℕ) (request : ConversationRequest) (key : String) (lease later : ℕ) (now : Datetime)
      (r : Reservation) (db1 db' : Database) (result : Answered) (chat : ChatResult)
      (c : Conversation)
      → delivery_key u sha256 request.delivery_id ≡ ok key
      → (row : IsReserved s.retained_exchange_limit request.conversation_id key lease r db1)
      → Unique exchange_key db1.exchanges
      → (done : Processed u closed resolver sha256 s grounded_chat meanwhile request now r db1
          result db')
      → result.chat ≡ some chat
      → Resolves resolver chat.citations
      → locked_active_conversation request.conversation_id later db' ≡ ok c
      → (respond u resolver sha256 s grounded_chat meanwhile fresh request (aware later) db').0
        ≡ ok (record result { duplicate = true })
  unfolding respond after_reserve
  answer_again fresh request key lease later now r db1 db' result chat c keyed row unique1 done
        answered_by known active =
      let done_all =
        Completes-of s.retention_seconds s.retained_exchange_limit r done.chat done.up now db1
          (complete u s.retention_seconds s.retained_exchange_limit r done.chat done.up now db1)
          done.stored_one db'
          (complete-Completes u s.retention_seconds s.retained_exchange_limit r done.chat done.up
            now db1)
          done.completed in
      let e = answered done.chat row.exchange in
      let there =
        found_again u s.retention_seconds s.retained_exchange_limit request.conversation_id key
          lease r done.chat done.up now db1 db' done.stored_one row unique1 done_all later in
      let same_id : c.id ≡ request.conversation_id =
        find_sound conversation_key request.conversation_id db'.conversations c
          (locked_found request.conversation_id later db' c active) in
      let there' : first (by_key c.id key) (abandon_stale c.id later db'.exchanges) ≡ some e =
        subst (λ id. first (by_key id key) (abandon_stale id later db'.exchanges) ≡ some e)
          (row.asked ∙ sym same_id) there in
      let (db2, again) =
        reserve_again u sha256 fresh s request key later db' c e (stored done.chat) done.stored_one
          keyed active there' refl refl done_all.persisted in
      let kept = persisted_same u done.chat done.stored_one done.grounded.text done_all.persisted in
      let same_chat : chat ≡ done.chat = ground (arith, done.answer, answered_by) in
      let known' : Resolves resolver done.chat.citations =
        subst (λ (x : ChatResult). Resolves resolver x.citations) same_chat known in
      let replay =
        replay_lem request row.exchange.conversation_id row.exchange.id done.chat
          (row.same_conversation ∙ row.asked) done.grounded known' in
      rw (again, kept, replay) (ground (arith, done.answer, row.same_id, row.same_conversation))

-- If a delivery was answered and is no duplicate, with nothing else done while the chat was awaited,
-- exchanges with distinct identifiers and a normal form closed under substrings, and it comes again
-- with nothing else done since, on the very database that its answer has left, then it is answered by
-- the same result as a duplicate, as long as the conversation is active and its citations resolve.
pub respond_again :
    (u : Unicode) (closed : ClosedUnderSubstring u) (resolver : ℕ → ℕ → Reply Citation)
    (sha256 : Text → String) (s : Settings) (grounded_chat : ChatRequest → Reply ChatResult)
    (fresh fresh' : ℕ) (request : ConversationRequest) (t later : ℕ) (db db' : Database)
    (result : Answered) (chat : ChatResult) (c : Conversation)
    → Unique exchange_key db.exchanges
    → respond u resolver sha256 s grounded_chat (λ d. d) fresh request (aware t) db
      ≡ (ok result, db')
    → result.duplicate ≡ false
    → result.chat ≡ some chat
    → Resolves resolver chat.citations
    → locked_active_conversation request.conversation_id later db' ≡ ok c
    → (respond u resolver sha256 s grounded_chat (λ d. d) fresh' request (aware later) db').0
      ≡ ok (record result { duplicate = true })
unfolding respond
respond_again u closed resolver sha256 s grounded_chat fresh fresh' request t later db db' result
      chat c unique first_answer new answered_by known active =
    let o = reserve u sha256 fresh s request (aware t) db in
    let (r, taken, done) =
      fresh-Processed u closed resolver sha256 s grounded_chat (λ d. d) request (aware t) o.0 o.1
        result db' first_answer new in
    let reserved_one : reserve u sha256 fresh s request (aware t) db ≡ (ok (reserved r), o.1) =
      ground (arith, taken) in
    let (key, keyed, row) = reserve-IsReserved u sha256 fresh s request t db o.1 r reserved_one in
    answer_again u closed resolver sha256 s grounded_chat (λ d. d) fresh' request key
      (t + seconds s.processing_lease_seconds) later (aware t) r o.1 db' result chat c keyed row
      (Reserves-Unique db o.1 (reserve-Reserves u sha256 fresh s request (aware t) db) unique) done
      answered_by known active
