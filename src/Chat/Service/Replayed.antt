-- ===== src/Chat/Service/Replayed.antt =====
-- conversation/service.py over chat/service.py, with one resolver of citations for both.
use legal_chatbot_ueb_demo_s.Prelude.{
  ℕ, ◌≡◌, refl, sym, ap, subst, true, false, Option, none, some, [], Text, String, Result, ok, err,
  arith, Result-cases, Bool-cases, inl, inr,
}
use legal_chatbot_ueb_demo_s.Table.{Unique}
use legal_chatbot_ueb_demo_s.Unicode.{Unicode}
use legal_chatbot_ueb_demo_s.Unicode.Substrings.{ClosedUnderSubstring}
use legal_chatbot_ueb_demo_s.Channels.Models.{aware}
use legal_chatbot_ueb_demo_s.Conversation.Models.{ConversationRequest, Settings}
use legal_chatbot_ueb_demo_s.Conversation.Store.{
  ChatOutcome, ChatReason, ChatResult, Conversation, Database, exchange_key, Fault,
}
use legal_chatbot_ueb_demo_s.Conversation.Queries.{locked_active_conversation}
use legal_chatbot_ueb_demo_s.Conversation.Exchanges.{Reservation, reserve}
use legal_chatbot_ueb_demo_s.Conversation.Policy.{build_chat_request}
use legal_chatbot_ueb_demo_s.Conversation.Policy.Contracts.{ChatRequest, nonblank_field}
use legal_chatbot_ueb_demo_s.Conversation.Results.{
  grounded_result, fixed_refusal, refusal_text, no_citations, result_route,
}
use legal_chatbot_ueb_demo_s.Conversation.Service.{
  Raised, Reply, Answered, heard, or_else, asked, chat_for, respond,
}
use legal_chatbot_ueb_demo_s.Conversation.Service.Replays.{
  IsGrounded, Resolves, routed_of, no_citations_nil,
}
use legal_chatbot_ueb_demo_s.Conversation.Service.Processed.{fresh-Processed}
use legal_chatbot_ueb_demo_s.Conversation.Service.Idempotence.{respond_again}
use legal_chatbot_ueb_demo_s.Chat.Words.{Patterns}
use legal_chatbot_ueb_demo_s.Chat.Planner.{ChatSettings}
use legal_chatbot_ueb_demo_s.Chat.Service.{Ports, answer_request}
use legal_chatbot_ueb_demo_s.Chat.Service.Returns.{FixedTexts}
use legal_chatbot_ueb_demo_s.Chat.Service.Closed.{answer_request_closed, answer_request-Supported}

-- The port of the conversation that the grounded chat fills.
abbrev pub replied : Result Fault ChatResult → Reply ChatResult
replied (ok chat) = ok chat
replied (err f) = err Raised.other

unfoldable pub chat_port :
    Unicode → Patterns → ChatSettings → ℕ → Ports → ChatRequest → Reply ChatResult
chat_port u p s max_response_bytes ports q =
    replied (answer_request u p s max_response_bytes ports q)

replied_ok :
    (x : Result Fault ChatResult) (chat : ChatResult) → heard (replied x) ≡ ok chat → x ≡ ok chat
replied_ok (ok c) chat h = ground arith
replied_ok (err f) chat h = absurd (ground arith)

kept_citations :
    (u : Unicode) (raw chat : ChatResult)
    → grounded_result u raw ≡ ok chat
    → raw.citations ≡ chat.citations
unfolding grounded_result
kept_citations u raw chat h = elim (Result-cases (nonblank_field u 4_000 raw.answer)) [
  | inr (f, e) ↦ absurd (ground arith)
  | inl (t, e) ↦ elim (Bool-cases (result_route raw)) [
    | inr refused ↦ absurd (ground arith)
    | inl routed ↦
        let made : record raw { answer = t } ≡ chat = ground arith in
        ap (λ (c : ChatResult). c.citations) made
  ]
]

no_refusal_citations :
    (u : Unicode) (reason : ChatReason) (run : Option ℕ) (chat : ChatResult)
    → fixed_refusal u reason run ≡ ok chat
    → [] ≡ chat.citations
unfolding fixed_refusal
no_refusal_citations u reason run chat h = elim (Result-cases (refusal_text reason)) [
  | inr (f, e) ↦ absurd (ground arith)
  | inl (t, e) ↦
      let raw : ChatResult = record {
        outcome = ChatOutcome.refusal;
        reason = reason;
        answer = t;
        retrieval_run_id = run;
        citations = [];
        provider = none;
        model = none;
        provider_request_id = none;
      } in
      kept_citations u raw chat (ground arith)
]

module _ (u : Unicode) (closed : ClosedUnderSubstring u) (texts : FixedTexts u) (p : Patterns)
    (cs : ChatSettings) (max_response_bytes : ℕ) (ports : Ports) where
  -- The citations of whatever the grounded chat returns resolve.
  answer-Resolves :
      (q : ChatRequest) (raw : ChatResult) (o : ChatOutcome)
      → answer_request u p cs max_response_bytes ports q ≡ ok raw
      → IsGrounded u raw
      → raw.outcome ≡ o
      → Resolves ports.resolve raw.citations
  answer-Resolves q raw ChatOutcome.answer h g e =
      let (r, got, supported) =
        answer_request-Supported u closed texts p cs max_response_bytes ports q raw h e in
      supported.resolves
  answer-Resolves q raw ChatOutcome.clarification h g e =
      let none_cited : no_citations raw.citations ≡ true =
        ground (arith, routed_of u ports.resolve raw g ChatOutcome.clarification e) in
      subst (Resolves ports.resolve)
        (sym (no_citations_nil u ports.resolve raw g raw.citations none_cited)) tt
  answer-Resolves q raw ChatOutcome.refusal h g e =
      let none_cited : no_citations raw.citations ≡ true =
        ground (arith, routed_of u ports.resolve raw g ChatOutcome.refusal e) in
      subst (Resolves ports.resolve)
        (sym (no_citations_nil u ports.resolve raw g raw.citations none_cited)) tt

  returned-Resolves :
      (q : ChatRequest) (raw : ChatResult)
      → answer_request u p cs max_response_bytes ports q ≡ ok raw
      → Resolves ports.resolve raw.citations
  returned-Resolves q raw h =
      let (raw', made, g) = answer_request_closed u closed texts p cs max_response_bytes ports q in
      let same : raw' ≡ raw = ground (arith, made, h) in
      answer-Resolves q raw raw.outcome h (subst (IsGrounded u) same g) refl

  asked-Resolves :
      (sha256 : Text → String) (s : Settings) (q : Result Fault ChatRequest) (chat : ChatResult)
      → asked u ports.resolve sha256 s (chat_port u p cs max_response_bytes ports) (λ d. d) q
        ≡ ok chat
      → Resolves ports.resolve chat.citations
  unfolding asked chat_port
  asked-Resolves sha256 s (err f) chat h = absurd (ground arith)
  asked-Resolves sha256 s (ok q) chat h =
      elim (Result-cases (heard (replied (answer_request u p cs max_response_bytes ports q)))) [
        | inr (f, e) ↦ absurd (ground (arith, e))
        | inl (raw, e) ↦
            let kept = kept_citations u raw chat (ground (arith, e)) in
            subst (Resolves ports.resolve) kept (
              returned-Resolves q raw
                (replied_ok (answer_request u p cs max_response_bytes ports q) raw e))
      ]

  chosen-Resolves :
      (sha256 : Text → String) (s : Settings) (a : Result Fault ChatResult) (chat : ChatResult)
      → ((c : ChatResult) → a ≡ ok c → Resolves ports.resolve c.citations)
      → or_else a (fixed_refusal u ChatReason.retrieval_failure none) ≡ ok chat
      → Resolves ports.resolve chat.citations
  chosen-Resolves sha256 s (ok c) chat first_one h = first_one chat h
  chosen-Resolves sha256 s (err f) chat first_one h =
      subst (Resolves ports.resolve)
        (no_refusal_citations u ChatReason.retrieval_failure none chat h) tt

  chat_for-Resolves :
      (sha256 : Text → String) (s : Settings) (request : ConversationRequest) (r : Reservation)
      (chat : ChatResult)
      → chat_for u ports.resolve sha256 s
          (chat_port u p cs max_response_bytes ports)
          (λ d. d)
          request
          r
        ≡ ok chat
      → Resolves ports.resolve chat.citations
  unfolding chat_for
  chat_for-Resolves sha256 s request r chat h =
      chosen-Resolves sha256 s
        (asked u ports.resolve sha256 s (chat_port u p cs max_response_bytes ports) (λ d. d)
          (build_chat_request u request r s))
        chat (asked-Resolves sha256 s (build_chat_request u request r s)) h

  -- If a delivery was answered by the conversation over the grounded chat and is no duplicate, with
  -- nothing else done meanwhile, exchanges with distinct identifiers, a normal form closed under
  -- substrings and fixed texts that meet their contracts, then the same delivery is answered later,
  -- while the conversation is active, by the same result as a duplicate, where one resolver of
  -- citations serves both.
  pub chat_respond_again :
      (sha256 : Text → String) (s : Settings) (fresh fresh' : ℕ) (request : ConversationRequest)
      (t later : ℕ) (db db' : Database) (result : Answered) (chat : ChatResult) (c : Conversation)
      → Unique exchange_key db.exchanges
      → respond u ports.resolve sha256 s
          (chat_port u p cs max_response_bytes ports)
          (λ d. d)
          fresh
          request
          (aware t)
          db
        ≡ (ok result, db')
      → result.duplicate ≡ false
      → result.chat ≡ some chat
      → locked_active_conversation request.conversation_id later db' ≡ ok c
      → (respond u ports.resolve sha256 s
          (chat_port u p cs max_response_bytes ports)
          (λ d. d)
          fresh'
          request
          (aware later)
          db').0
        ≡ ok (record result { duplicate = true })
  unfolding respond
  chat_respond_again sha256 s fresh fresh' request t later db db' result chat c unique first_answer
        new answered_by active =
      let port = chat_port u p cs max_response_bytes ports in
      let o = reserve u sha256 fresh s request (aware t) db in
      let (r, taken, done) =
        fresh-Processed u closed ports.resolve sha256 s port (λ d. d) request (aware t) o.0 o.1
          result db' first_answer new in
      let same : done.chat ≡ chat = ground (arith, done.answer, answered_by) in
      let known =
        subst (λ (x : ChatResult). Resolves ports.resolve x.citations) same
          (chat_for-Resolves sha256 s request r done.chat done.chosen) in
      respond_again u closed ports.resolve sha256 s port fresh fresh' request t later db db' result
        chat c unique first_answer new answered_by known active
