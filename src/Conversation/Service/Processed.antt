-- ===== src/Conversation/Service/Processed.antt =====
-- What an answer of conversation/service.py that is no duplicate tells of the completion behind it.
use legal_chatbot_ueb_demo_s.Prelude.{
  ℕ, ◌≡◌, refl, true, false, Option, none, some, [], String, Text, Result, ok, err, arith,
  Result-cases, inl, inr,
}
use legal_chatbot_ueb_demo_s.Unicode.{Unicode}
use legal_chatbot_ueb_demo_s.Unicode.Substrings.{ClosedUnderSubstring}
use legal_chatbot_ueb_demo_s.Channels.Models.{Datetime}
use legal_chatbot_ueb_demo_s.Conversation.Models.{
  ConversationErrorCode, ConversationRequest, ExchangeStatus, Settings,
}
use legal_chatbot_ueb_demo_s.Conversation.Store.{
  ChatOutcome, ChatReason, ChatResult, Citation, Stored, Database, Fault,
}
use legal_chatbot_ueb_demo_s.Conversation.Exchanges.{
  Reservation, ReservationResult, reserved, duplicate_completed, duplicate_processing,
  duplicate_terminal,
}
use legal_chatbot_ueb_demo_s.Conversation.Completion.{StateUpdate, complete}
use legal_chatbot_ueb_demo_s.Conversation.Policy.Contracts.{ChatRequest}
use legal_chatbot_ueb_demo_s.Conversation.Policy.{build_chat_request, build_state_update}
use legal_chatbot_ueb_demo_s.Conversation.Results.{grounded_result, fixed_refusal, refusal_text}
use legal_chatbot_ueb_demo_s.Conversation.Service.{
  Reply, Answered, result_of, heard, or_else, replayed, replay_completed, chat_for, asked,
  of_completion, complete_with, process, after_reserve,
}
use legal_chatbot_ueb_demo_s.Conversation.Service.Replays.{IsGrounded, grounded_result-IsGrounded}

module _ (u : Unicode) (closed : ClosedUnderSubstring u) (resolver : ℕ → ℕ → Reply Citation)
    (sha256 : Text → String) (s : Settings) (grounded_chat : ChatRequest → Reply ChatResult)
    (meanwhile : Database → Database) where
  or_else-IsGrounded :
      (a b : Result Fault ChatResult) (chat : ChatResult)
      → ((c : ChatResult) → a ≡ ok c → IsGrounded u c)
      → ((c : ChatResult) → b ≡ ok c → IsGrounded u c)
      → or_else a b ≡ ok chat
      → IsGrounded u chat
  or_else-IsGrounded (ok a) b chat first_one second_one h = first_one chat h
  or_else-IsGrounded (err f) b chat first_one second_one h = second_one chat h

  refusal-IsGrounded :
      (reason : ChatReason) (run : Option ℕ) (chat : ChatResult)
      → fixed_refusal u reason run ≡ ok chat
      → IsGrounded u chat
  unfolding fixed_refusal
  refusal-IsGrounded reason run chat h = elim (Result-cases (refusal_text reason)) [
    | inr (f, e) ↦ absurd (ground arith)
    | inl (t, e) ↦
        let raw : ChatResult = record {
          outcome = ChatOutcome.refusal;
          reason = reason;
          answer = t;
          retrieval_run_id = run;
          citations = [];
          provider = none;
          model = none;
          provider_request_id = none;
        } in
        let made : grounded_result u raw ≡ ok chat = ground arith in
        grounded_result-IsGrounded u closed raw chat made
  ]

  asked-IsGrounded :
      (q : Result Fault ChatRequest) (chat : ChatResult)
      → asked u resolver sha256 s grounded_chat meanwhile q ≡ ok chat
      → IsGrounded u chat
  unfolding asked
  asked-IsGrounded (err f) chat h = absurd (ground arith)
  asked-IsGrounded (ok q) chat h = elim (Result-cases (heard (grounded_chat q))) [
    | inr (f, e) ↦ absurd (ground arith)
    | inl (raw, e) ↦ grounded_result-IsGrounded u closed raw chat (ground arith)
  ]

  -- Whatever the chat does, the result that is completed meets its contract.
  chat_for-IsGrounded :
      (request : ConversationRequest) (r : Reservation) (chat : ChatResult)
      → chat_for u resolver sha256 s grounded_chat meanwhile request r ≡ ok chat
      → IsGrounded u chat
  unfolding chat_for
  chat_for-IsGrounded request r chat h =
      or_else-IsGrounded
        (asked u resolver sha256 s grounded_chat meanwhile (build_chat_request u request r s))
        (fixed_refusal u ChatReason.retrieval_failure none) chat
        (asked-IsGrounded (build_chat_request u request r s))
        (refusal-IsGrounded ChatReason.retrieval_failure none) h

  -- What an answer that is no duplicate tells.
  pub record Processed (request : ConversationRequest) (now : Datetime) (r : Reservation)
      (db : Database) (result : Answered) (db' : Database) : Type 0 where
    pub chat : ChatResult
    pub up : StateUpdate
    pub stored_one : Stored
    pub grounded : IsGrounded u chat
    pub chosen : chat_for u resolver sha256 s grounded_chat meanwhile request r ≡ ok chat
    pub completed :
        complete u s.retention_seconds s.retained_exchange_limit r chat up now db
        ≡ (ok stored_one, db')
    pub answer :
        result
        ≡ result_of r.conversation_id r.exchange_id ExchangeStatus.completed false (some chat)

  stored-Processed :
      (request : ConversationRequest) (now : Datetime) (r : Reservation) (db : Database)
      (chat : ChatResult) (up : StateUpdate) (result : Answered) (db' : Database)
      (o : Result ConversationErrorCode Stored × Database)
      → IsGrounded u chat
      → chat_for u resolver sha256 s grounded_chat meanwhile request r ≡ ok chat
      → complete u s.retention_seconds s.retained_exchange_limit r chat up now db ≡ o
      → of_completion u resolver sha256 s grounded_chat meanwhile r chat o ≡ (ok result, db')
      → Processed request now r db result db'
  stored-Processed request now r db chat up result db' (ok p, db1) g chosen e h = record {
    chat = chat;
    up = up;
    stored_one = p;
    grounded = g;
    chosen = chosen;
    completed = ground (arith, e);
    answer = ground arith;
  }
  stored-Processed request now r db chat up result db' (err code, db1) g chosen e h =
      absurd (ground arith)

  completion-Processed :
      (request : ConversationRequest) (now : Datetime) (r : Reservation) (db : Database)
      (chat : ChatResult) (result : Answered) (db' : Database)
      → IsGrounded u chat
      → chat_for u resolver sha256 s grounded_chat meanwhile request r ≡ ok chat
      → complete_with u resolver sha256 s grounded_chat meanwhile request r chat now db
        ≡ (ok result, db')
      → Processed request now r db result db'
  unfolding complete_with
  completion-Processed request now r db chat result db' g chosen h =
      elim (Result-cases (build_state_update u r request s)) [
        | inr (f, e) ↦ absurd (ground arith)
        | inl (up, e) ↦
            stored-Processed request now r db chat up result db'
              (complete u s.retention_seconds s.retained_exchange_limit r chat up now db) g chosen
              refl (ground arith)
      ]

  process-Processed :
      (request : ConversationRequest) (now : Datetime) (r : Reservation) (db : Database)
      (result : Answered) (db' : Database)
      → process u resolver sha256 s grounded_chat meanwhile request r now db ≡ (ok result, db')
      → Processed request now r db result db'
  unfolding process
  process-Processed request now r db result db' h =
      elim (Result-cases (chat_for u resolver sha256 s grounded_chat meanwhile request r)) [
        | inr (f, e) ↦ absurd (ground arith)
        | inl (chat, e) ↦
            completion-Processed request now r db chat result db'
              (chat_for-IsGrounded request r chat e) e (ground arith)
      ]

  replay-duplicate :
      (request : ConversationRequest) (conversation exchange : ℕ) (p : Stored) (result : Answered)
      → replay_completed u resolver request conversation exchange p ≡ ok result
      → result.duplicate ≡ true
  unfolding replay_completed
  replay-duplicate request conversation exchange p result h =
      elim (Result-cases (replayed u resolver p.outcome p)) [
        | inr (f, e) ↦ absurd (ground arith)
        | inl (chat, e) ↦ ground arith
      ]

  -- An answer that is no duplicate is that of a reservation which has been completed.
  pub fresh-Processed :
      (request : ConversationRequest) (now : Datetime)
      (o : Result ConversationErrorCode ReservationResult) (db : Database) (result : Answered)
      (db' : Database)
      → after_reserve u resolver sha256 s grounded_chat meanwhile request now (o, db)
        ≡ (ok result, db')
      → result.duplicate ≡ false
      → (r : Reservation) × (o ≡ ok (reserved r))
        × Processed request now r (meanwhile db) result db'
  unfolding after_reserve
  fresh-Processed request now (err code) db result db' h fresh = absurd (ground arith)
  fresh-Processed request now (ok (duplicate_processing c x)) db result db' h fresh =
      absurd (ground arith)
  fresh-Processed request now (ok (duplicate_terminal c x)) db result db' h fresh =
      absurd (ground arith)
  fresh-Processed request now (ok (duplicate_completed c x p)) db result db' h fresh =
      let replay : replay_completed u resolver request c x p ≡ ok result = ground arith in
      absurd (ground (arith, replay-duplicate request c x p result replay))
  fresh-Processed request now (ok (reserved r)) db result db' h fresh =
      (r, refl, process-Processed request now r (meanwhile db) result db' h)
