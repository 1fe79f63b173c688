-- ===== src/Chat/Service.antt =====
-- `GroundedChatService` of chat/service.py: `respond` over its ports. Logging and what only the log
-- reads are not modelled, nor is the quality context, which an opt-in retrieval adapter supplies.
-- `sanitize_request_id` keeps an identifier that its validator has accepted.
pub mod Returns
pub mod Grounds
pub mod Supported
pub mod Closed
pub mod Asked
pub mod Replayed
use legal_chatbot_ueb_demo_s.Prelude.{
  ℕ, Bool, true, false, not, ◌&&◌, ◌||◌, Option, none, some, List, [], ◌∷◌, ltb, leb, ◌==◌,
  if◌then◌else◌, length, Text, Result, ok, err, ◌>>=◌, ◌>>◌, require,
}
use legal_chatbot_ueb_demo_s.Unicode.{Unicode, is_blank}
use legal_chatbot_ueb_demo_s.Conversation.Store.{
  ChatOutcome, ChatReason, ChatResult, Citation, Fault, validation_error,
}
use legal_chatbot_ueb_demo_s.Conversation.Snapshots.{nodup}
use legal_chatbot_ueb_demo_s.Conversation.Results.{grounded_result, fixed_refusal}
use legal_chatbot_ueb_demo_s.Conversation.Service.{Reply, heard}
use legal_chatbot_ueb_demo_s.Conversation.Policy.Contracts.{ChatRequest, TemporalScope}
use legal_chatbot_ueb_demo_s.Chat.Words.{Patterns}
use legal_chatbot_ueb_demo_s.Chat.Retrieved.{
  RetrievalRequest, RetrievalResult, retrieval_request, GroundingEvidence, candidate_ids,
}
use legal_chatbot_ueb_demo_s.Chat.Planner.{
  ChatSettings, QueryPlannerResult, Expansion, plan_retrieval,
}
use legal_chatbot_ueb_demo_s.Chat.Prompt.{build_grounded_prompt}
use legal_chatbot_ueb_demo_s.Chat.Policy.{
  apply_temporal_guard, no_results_clarification_text, Route, eligible, clarified, refused,
  retrieval_policy_decision,
}
use legal_chatbot_ueb_demo_s.Chat.Grounding.{
  validate_retrieval_result, validate_grounding_evidence, reresolve_citations, Generation,
  validate_generation_result, utf8_length, validate_provider_answer,
}

-- The ports of the service; `parse` is that of the parser.
pub record Ports : Type 0 where
  pub planner : Option (Text → Reply QueryPlannerResult)
  pub anchors : Option (List Text → Reply (Option (List ℕ)))
  pub retrieve : RetrievalRequest → Reply RetrievalResult
  pub load : ℕ → List ℕ → Reply GroundingEvidence
  pub generate : Text → ℕ → Reply Generation
  pub parse : Text → Reply Text
  pub resolve : ℕ → ℕ → Reply Citation

abbrev or_question : Option Text → Text → Text
or_question none question = question
or_question (some query) question = if is_blank query then question else query

module _ (u : Unicode) (p : Patterns) (s : ChatSettings) (max_response_bytes : ℕ)
    (ports : Ports) where
  -- `_retrieval_request`
  unfoldable pub retrieval_of :
      ChatRequest → ChatRequest → Expansion → Result Fault RetrievalRequest
  unfolding retrieval_request
  retrieval_of request guarded e =
      retrieval_request u (or_question request.retrieval_query request.question) e.query
        e.document_ids s.max_citations guarded.temporal_scope

  unfoldable pub retrieved : ChatRequest → ChatRequest → Expansion → Result Fault RetrievalResult
  unfolding retrieval_of validate_retrieval_result
  retrieved request guarded e = do
    q ← retrieval_of request guarded e
    r ← heard (ports.retrieve q)
    validate_retrieval_result s r

  -- `GroundingEvidenceRequest`, and the evidence that the port loads for it.
  unfoldable pub evidence_for : RetrievalResult → Result Fault GroundingEvidence
  unfolding validate_grounding_evidence
  evidence_for r = do
    require
        (leb 1 (length r.candidates)
          && leb (length r.candidates) 6
          && nodup (candidate_ids r.candidates))
        validation_error
    g ← heard (ports.load r.retrieval_run_id (candidate_ids r.candidates))
    validate_grounding_evidence u g r

  unfoldable pub grounded : ChatRequest → RetrievalResult → Result Fault (GroundingEvidence × Text)
  unfolding evidence_for build_grounded_prompt
  grounded guarded r = do
    g ← evidence_for r
    prompt ← build_grounded_prompt guarded g s
    ok (g, prompt)

  -- `_failure`
  abbrev failure : ChatReason → ℕ → Result Fault ChatResult
  failure reason run = fixed_refusal u reason (some run)

  -- What the provider's text becomes: the answer, or a failure.
  unfoldable pub answered_by : Generation → Result Fault Text
  unfolding utf8_length validate_provider_answer
  answered_by g = do
    require (leb (utf8_length g.text) max_response_bytes) validation_error
    parsed ← heard (ports.parse g.text)
    validate_provider_answer u p s parsed

  -- The end of `respond`, from the citations on; the result is built outside of every `try`.
  unfoldable pub answer_with :
      RetrievalResult → GroundingEvidence → Generation → Text → Result Fault ChatResult
  unfolding reresolve_citations grounded_result
  answer_with r g generation answer =
      elim (reresolve_citations ports.resolve r.retrieval_run_id r.candidates g.excerpts) [
        | err f ↦ failure ChatReason.citation_revalidation_failure r.retrieval_run_id
        | ok citations ↦ grounded_result u (record {
          outcome = ChatOutcome.answer;
          reason = ChatReason.answer_grounded;
          answer = answer;
          retrieval_run_id = some r.retrieval_run_id;
          citations = citations;
          provider = some generation.provider;
          model = some generation.model;
          provider_request_id = generation.request_id;
        })
      ]

  unfoldable pub read_output :
      RetrievalResult → GroundingEvidence → Generation → Result Fault ChatResult
  unfolding answered_by answer_with
  read_output r g generation = elim (answered_by generation) [
    | err f ↦ failure ChatReason.invalid_provider_output r.retrieval_run_id
    | ok answer ↦ answer_with r g generation answer
  ]

  -- `GenerationRequest`, and what the provider generates for it.
  unfoldable pub generation_for : Text → Result Fault Generation
  generation_for prompt = do
    require
        (leb 1 (length prompt)
          && leb (length prompt) 262_144
          && leb 1 s.max_output_tokens
          && leb s.max_output_tokens 4_096)
        validation_error
    heard (ports.generate prompt s.max_output_tokens)

  unfoldable pub generated : RetrievalResult → GroundingEvidence → Text → Result Fault ChatResult
  unfolding generation_for validate_generation_result read_output
  generated r g prompt = elim (generation_for prompt) [
    | err f ↦ failure ChatReason.provider_failure r.retrieval_run_id
    | ok value ↦ elim (validate_generation_result value) [
      | err f ↦ failure ChatReason.invalid_provider_output r.retrieval_run_id
      | ok generation ↦ read_output r g generation
    ]
  ]

  unfoldable pub eligible_answer : ChatRequest → RetrievalResult → Result Fault ChatResult
  unfolding grounded generated
  eligible_answer guarded r = elim (grounded guarded r) [
    | err f ↦ failure ChatReason.grounding_failure r.retrieval_run_id
    | ok (g, prompt) ↦ generated r g prompt
  ]

  unfoldable pub routed : ChatRequest → RetrievalResult → Route → Result Fault ChatResult
  unfolding eligible_answer grounded_result
  routed guarded r eligible = eligible_answer guarded r
  routed guarded r clarified = grounded_result u (record {
    outcome = ChatOutcome.clarification;
    reason = ChatReason.no_results;
    answer = no_results_clarification_text;
    retrieval_run_id = some r.retrieval_run_id;
    citations = [];
    provider = none;
    model = none;
    provider_request_id = none;
  })
  routed guarded r (refused reason) = failure reason r.retrieval_run_id

  -- The planning and the retrieval of `respond`.
  unfoldable pub retrieval_for : ChatRequest → Result Fault RetrievalResult
  unfolding apply_temporal_guard plan_retrieval retrieved
  retrieval_for request =
      let guarded = apply_temporal_guard u p request in
      retrieved request guarded
        (plan_retrieval u p s ports.planner ports.anchors guarded.temporal_scope request.question)

  -- `respond`
  unfoldable pub answer_request : ChatRequest → Result Fault ChatResult
  unfolding apply_temporal_guard retrieval_for retrieval_policy_decision routed
  answer_request request = elim (retrieval_for request) [
    | err f ↦ fixed_refusal u ChatReason.retrieval_failure none
    | ok r ↦ routed (apply_temporal_guard u p request) r (retrieval_policy_decision r.decision)
  ]
