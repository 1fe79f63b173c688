-- ===== src/Chat/Service/Asked.antt =====
-- Which ports `respond` of chat/service.py asks: a port that it may not ask can be any other.
use legal_chatbot_ueb_demo_s.Prelude.{ℕ, ◌≡◌, ◌≢◌, refl, Option, Text, ok, List}
use legal_chatbot_ueb_demo_s.Unicode.{Unicode}
use legal_chatbot_ueb_demo_s.Conversation.Service.{Reply}
use legal_chatbot_ueb_demo_s.Conversation.Policy.Contracts.{ChatRequest, TemporalScope}
use legal_chatbot_ueb_demo_s.Chat.Words.{Patterns}
use legal_chatbot_ueb_demo_s.Chat.Retrieved.{RetrievalResult, RetrievalDecision, GroundingEvidence}
use legal_chatbot_ueb_demo_s.Chat.Planner.{ChatSettings, QueryPlannerResult, plan_retrieval}
use legal_chatbot_ueb_demo_s.Chat.Policy.{
  apply_temporal_guard, effective_temporal_scope, retrieval_policy_decision,
}
use legal_chatbot_ueb_demo_s.Chat.Grounding.{Generation}
use legal_chatbot_ueb_demo_s.Chat.Service.{
  Ports, routed, retrieval_for, answer_request, retrieved, retrieval_of, eligible_answer, grounded,
  evidence_for, generated, generation_for, read_output, answered_by, answer_with,
}

module _ (u : Unicode) (p : Patterns) (s : ChatSettings) (max_response_bytes : ℕ)
    (ports : Ports) where
  routed_apart :
      (guarded : ChatRequest) (r : RetrievalResult) (d : RetrievalDecision)
      (load : ℕ → List ℕ → Reply GroundingEvidence) (generate : Text → ℕ → Reply Generation)
      → d ≢ RetrievalDecision.evidence_available
      → routed u p s max_response_bytes
          (record ports { load = load; generate = generate })
          guarded
          r
          (retrieval_policy_decision d)
        ≡ routed u p s max_response_bytes ports guarded r (retrieval_policy_decision d)
  unfolding routed retrieval_policy_decision
  routed_apart guarded r RetrievalDecision.evidence_available load generate h = absurd (h refl)
  routed_apart guarded r RetrievalDecision.no_results load generate h = refl
  routed_apart guarded r RetrievalDecision.unsupported_temporal_scope load generate h = refl
  routed_apart guarded r RetrievalDecision.invalid_evidence_chain load generate h = refl

  -- Where the retrieval has no evidence, neither the evidence port nor the provider has a say in what
  -- `respond` returns.
  pub provider_not_asked :
      (request : ChatRequest) (r : RetrievalResult) (load : ℕ → List ℕ → Reply GroundingEvidence)
      (generate : Text → ℕ → Reply Generation)
      → retrieval_for u p s max_response_bytes ports request ≡ ok r
      → r.decision ≢ RetrievalDecision.evidence_available
      → answer_request u p s max_response_bytes
          (record ports { load = load; generate = generate })
          request
        ≡ answer_request u p s max_response_bytes ports request
  unfolding answer_request retrieval_for
  provider_not_asked request r load generate h none_there =
      rw (answer_request, h)
        (routed_apart (apply_temporal_guard u p request) r r.decision load generate none_there)

  plan_apart :
      (scope : TemporalScope) (question : Text)
      (planner planner' : Option (Text → Reply QueryPlannerResult))
      (anchors anchors' : Option (List Text → Reply (Option (List ℕ))))
      → scope ≢ TemporalScope.no_scope
      → plan_retrieval u p s planner anchors scope question
        ≡ plan_retrieval u p s planner' anchors' scope question
  unfolding plan_retrieval
  plan_apart TemporalScope.no_scope question planner planner' anchors anchors' h = absurd (h refl)
  plan_apart TemporalScope.as_of question planner planner' anchors anchors' h = refl
  plan_apart TemporalScope.current_effect question planner planner' anchors anchors' h = refl

  -- Where the request or its phrases ask for the law at some time, neither the planner nor the
  -- resolver of anchors has a say in what `respond` returns.
  pub planner_not_asked :
      (request : ChatRequest) (planner : Option (Text → Reply QueryPlannerResult))
      (anchors : Option (List Text → Reply (Option (List ℕ))))
      → effective_temporal_scope u p request ≢ TemporalScope.no_scope
      → answer_request u p s max_response_bytes
          (record ports { planner = planner; anchors = anchors })
          request
        ≡ answer_request u p s max_response_bytes ports request
  unfolding answer_request retrieval_for apply_temporal_guard retrieved retrieval_of routed
      eligible_answer grounded evidence_for generated generation_for read_output answered_by
      answer_with
  planner_not_asked request planner anchors asks_time =
      rw
        (
          answer_request,
          retrieval_for,
          plan_apart (effective_temporal_scope u p request) request.question planner ports.planner
              anchors ports.anchors asks_time,
        )
        refl
