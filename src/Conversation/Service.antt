-- ===== src/Conversation/Service.antt =====
-- `ConversationService` of conversation/service.py over the repository, the chat and the citation
-- resolver. `meanwhile` is what other transactions do while the chat is awaited. `_validated`
-- returns a value of its type as it is, since the validators accept their own results; logging and the
-- checks of types are not modelled.
pub mod Replays
pub mod Processed
pub mod Idempotence
use legal_chatbot_ueb_demo_s.Conversation.Results.{
  citation_ids, document_ids, grounded_result, fixed_refusal,
}
use legal_chatbot_ueb_demo_s.Prelude.{
  ℕ, suc, ◌+◌, Bool, true, false, not, ◌&&◌, ◌||◌, Option, none, some, List, [], ◌∷◌, map, ltb, leb,
  ◌==◌, if◌then◌else◌, length, String, Text, codes, Result, ok, err, ◌>>=◌, ◌>>◌, require,
}
use legal_chatbot_ueb_demo_s.Table.{is_some, same}
use legal_chatbot_ueb_demo_s.Unicode.{Unicode}
use legal_chatbot_ueb_demo_s.Channels.Models.{Datetime}
use legal_chatbot_ueb_demo_s.Conversation.Models.{
  ConversationErrorCode, persistence_failure, lease_expired, ExchangeStatus, ConversationRequest,
  ConversationResult, Settings,
}
use legal_chatbot_ueb_demo_s.Conversation.Store.{
  ChatOutcome, ChatReason, ChatResult, Citation, Stored, distinct, Database, Fault,
  conversation_error, validation_error, is_refusal_reason, is_grounded, is_no_results,
  is_retrieval_failure, is_empty,
}
use legal_chatbot_ueb_demo_s.Conversation.Snapshots.{nodup}
use legal_chatbot_ueb_demo_s.Conversation.Exchanges.{
  Reservation, ReservationResult, reserved, duplicate_completed, duplicate_processing,
  duplicate_terminal, reserve,
}
use legal_chatbot_ueb_demo_s.Conversation.Completion.{StateUpdate, same_ids, complete}
use legal_chatbot_ueb_demo_s.Conversation.Policy.Contracts.{ChatRequest, nonblank_field}
use legal_chatbot_ueb_demo_s.Conversation.Policy.{build_chat_request, build_state_update}

-- What an awaited call may raise.
pub data Raised : Type 0 where
  conversation_raised : ConversationErrorCode → Raised
  other : Raised

abbrev pub Reply : Type 0 → Type 0
Reply A = Result Raised A

abbrev pub or_else : {A : Type 0} → Result Fault A → Result Fault A → Result Fault A
or_else (ok a) other_one = ok a
or_else (err f) other_one = other_one

abbrev pub heard : {A : Type 0} → Reply A → Result Fault A
heard (ok a) = ok a
heard (err e) = err validation_error

-- `except ConversationError: raise`, `except Exception: raise ConversationError(PERSISTENCE_FAILURE)`
abbrev pub persistence_code : Fault → ConversationErrorCode
persistence_code (conversation_error code) = code
persistence_code f = ConversationErrorCode.persistence_failure

abbrev pub raise_code : {A : Type 0} → ConversationErrorCode → Reply A
raise_code code = err (conversation_raised code)

abbrev pub Answered : Type 0
Answered = ConversationResult ChatResult

abbrev pub result_of : ℕ → ℕ → ExchangeStatus → Bool → Option ChatResult → Answered
result_of conversation exchange status duplicate chat = record {
  conversation_id = conversation;
  exchange_id = exchange;
  status = status;
  duplicate = duplicate;
  chat = chat;
}

module _ (u : Unicode) (resolver : ℕ → ℕ → Reply Citation) where
  -- The loop of `_replay_answer` over the citations.
  unfoldable pub resolve_all : ℕ → List ℕ → Result Fault (List Citation)
  resolve_all run [] = ok []
  resolve_all run (id ∷ ids) = do
    c ← heard (resolver id run)
    require (c.citation_id == id && c.retrieval_run_id == run) validation_error
    cs ← resolve_all run ids
    ok (c ∷ cs)

  -- `_replay_answer`
  unfoldable pub replay_answer : Stored → Result Fault ChatResult
  unfolding resolve_all grounded_result distinct
  replay_answer p = elim p.retrieval_run_id [
    | none ↦ err validation_error
    | some run ↦ do
      require (not (is_empty p.citation_ids)) validation_error
      cs ← resolve_all run p.citation_ids
      require (same_ids (distinct [] (document_ids cs)) p.document_ids) validation_error
      grounded_result u (record {
        outcome = ChatOutcome.answer;
        reason = ChatReason.answer_grounded;
        answer = p.answer;
        retrieval_run_id = some run;
        citations = cs;
        provider = p.provider;
        model = p.model;
        provider_request_id = p.provider_request_id;
      })
  ]

  replayed_other : Stored → Result Fault ChatResult
  unfolding grounded_result
  replayed_other p = grounded_result u (record {
    outcome = p.outcome;
    reason = p.reason;
    answer = p.answer;
    retrieval_run_id = p.retrieval_run_id;
    citations = [];
    provider = none;
    model = none;
    provider_request_id = none;
  })

  pub replayed : ChatOutcome → Stored → Result Fault ChatResult
  unfolding replay_answer fixed_refusal replayed_other
  replayed ChatOutcome.answer p =
      or_else (replay_answer p)
        (fixed_refusal u ChatReason.citation_revalidation_failure p.retrieval_run_id)
  replayed _ p = replayed_other p

  abbrev of_replay : ℕ → ℕ → Result Fault ChatResult → Reply Answered
  of_replay conversation exchange (ok chat) =
      ok (result_of conversation exchange ExchangeStatus.completed true (some chat))
  of_replay conversation exchange (err f) = err other

  -- `_replay_completed`
  unfoldable pub replay_completed : ConversationRequest → ℕ → ℕ → Stored → Reply Answered
  unfolding replayed
  replay_completed request conversation exchange p =
      if conversation == request.conversation_id
      then of_replay conversation exchange (replayed p.outcome p)
      else raise_code ConversationErrorCode.persistence_failure

  module _ (sha256 : Text → String) (s : Settings) (grounded_chat : ChatRequest → Reply ChatResult)
      (meanwhile : Database → Database) where
    unfoldable pub asked : Result Fault ChatRequest → Result Fault ChatResult
    asked (err f) = err f
    asked (ok q) = do chat ← heard (grounded_chat q); grounded_result u chat

    -- The first `try` of a reserved delivery: any failure becomes a refusal.
    unfoldable pub chat_for : ConversationRequest → Reservation → Result Fault ChatResult
    unfolding asked
    chat_for request r =
        or_else (asked (build_chat_request u request r s))
          (fixed_refusal u ChatReason.retrieval_failure none)

    abbrev of_completion :
        Reservation
        → ChatResult
        → Result ConversationErrorCode Stored × Database
        → Reply Answered × Database
    of_completion r chat (ok p, db) = (
      ok (result_of r.conversation_id r.exchange_id ExchangeStatus.completed false (some chat)),
      db,
    )
    of_completion r chat (err code, db) = (raise_code code, db)

    -- The second `try`.
    unfoldable pub complete_with :
        ConversationRequest
        → Reservation
        → ChatResult
        → Datetime
        → Database
        → Reply Answered × Database
    complete_with request r chat now db = elim (build_state_update u r request s) [
      | err f ↦ (raise_code (persistence_code f), db)
      | ok up ↦
          of_completion r chat
            (complete u s.retention_seconds s.retained_exchange_limit r chat up now db)
    ]

    unfoldable pub process :
        ConversationRequest → Reservation → Datetime → Database → Reply Answered × Database
    process request r now db = elim (chat_for request r) [
      | err f ↦ (err other, db)
      | ok chat ↦ complete_with request r chat now db
    ]

    unfoldable pub after_reserve :
        ConversationRequest
        → Datetime
        → Result ConversationErrorCode ReservationResult × Database
        → Reply Answered × Database
    after_reserve request now (err code, db) = (raise_code code, db)
    after_reserve request now (ok (duplicate_processing conversation exchange), db) = (
      (if conversation == request.conversation_id
          then ok (result_of conversation exchange ExchangeStatus.processing true none)
          else raise_code ConversationErrorCode.persistence_failure),
      db,
    )
    after_reserve request now (ok (duplicate_terminal conversation exchange), db) = (
      (if conversation == request.conversation_id
          then raise_code ConversationErrorCode.lease_expired
          else raise_code ConversationErrorCode.persistence_failure),
      db,
    )
    after_reserve request now (ok (duplicate_completed conversation exchange p), db) =
        (replay_completed request conversation exchange p, db)
    after_reserve request now (ok (reserved r), db) = process request r now (meanwhile db)

    -- `respond`; `fresh` is the identifier of a new exchange.
    unfoldable pub respond :
        ℕ → ConversationRequest → Datetime → Database → Reply Answered × Database
    respond fresh request now db =
        after_reserve request now (reserve u sha256 fresh s request now db)
