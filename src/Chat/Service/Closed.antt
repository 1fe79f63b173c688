-- ===== src/Chat/Service/Closed.antt =====
-- chat/service.py fails closed: whatever its ports do, it returns a result that meets the contract,
-- and an answer cites what was retrieved, loaded and resolved.
use legal_chatbot_ueb_demo_s.Chat.Service.Supported.{
  length-map_ids, length-map_excerpts, no_citations_present, evidence-Evident, Evident, Supported,
}
use legal_chatbot_ueb_demo_s.Prelude.{
  ℕ, ◌≡◌, ◌≤◌, refl, sym, ap, subst, ◌∙◌, true, none, some, [], length, Text, Result, ok, arith,
  Result-cases, inl, inr,
}
use legal_chatbot_ueb_demo_s.Unicode.{Unicode}
use legal_chatbot_ueb_demo_s.Unicode.Substrings.{ClosedUnderSubstring}
use legal_chatbot_ueb_demo_s.Conversation.Store.{
  ChatOutcome, ChatReason, ChatResult, Fault, is_refusal_reason,
}
use legal_chatbot_ueb_demo_s.Conversation.Snapshots.{nodup}
use legal_chatbot_ueb_demo_s.Conversation.Policy.Contracts.{nonblank_field, ChatRequest}
use legal_chatbot_ueb_demo_s.Conversation.Service.{heard}
use legal_chatbot_ueb_demo_s.Conversation.Results.{fixed_refusal, result_route, citation_ids}
use legal_chatbot_ueb_demo_s.Conversation.Service.Replays.{IsGrounded, nonblank_facts}
use legal_chatbot_ueb_demo_s.Chat.Words.{Patterns}
use legal_chatbot_ueb_demo_s.Chat.Retrieved.{
  RetrievalResult, RetrievalDecision, candidate_ids, GroundingEvidence,
}
use legal_chatbot_ueb_demo_s.Chat.Planner.{ChatSettings}
use legal_chatbot_ueb_demo_s.Chat.Prompt.{build_grounded_prompt}
use legal_chatbot_ueb_demo_s.Chat.Policy.{
  clarified, retrieval_policy_decision, apply_temporal_guard, no_results_clarification_text,
}
use legal_chatbot_ueb_demo_s.Chat.Grounding.{
  validate_grounding_evidence, reresolve_citations, Generation, validate_generation_result,
  provider_answer, validate_provider_answer,
}
use legal_chatbot_ueb_demo_s.Chat.Service.{
  Ports, generation_for, evidence_for, grounded, answered_by, answer_with, read_output, generated,
  eligible_answer, routed, retrieval_for, answer_request,
}
use legal_chatbot_ueb_demo_s.Chat.Service.Returns.{
  FixedTexts, grounded_result-IsGrounded_of, fixed_refusal-IsGrounded,
}
use legal_chatbot_ueb_demo_s.Chat.Service.Grounds.{reresolve_citations-Grounds}

module _ (u : Unicode) (closed : ClosedUnderSubstring u) (texts : FixedTexts u) (p : Patterns)
    (s : ChatSettings) (max_response_bytes : ℕ) (ports : Ports) where
  nonblank_again : (x t : Text) → nonblank_field u 4_000 x ≡ ok t → nonblank_field u 4_000 t ≡ ok t
  unfolding nonblank_field
  nonblank_again x t h = ground (arith, nonblank_facts u closed x t h)

  accepted_answer :
      (x t : Text) → validate_provider_answer u p s x ≡ ok t → nonblank_field u 4_000 t ≡ ok t
  unfolding validate_provider_answer provider_answer
  accepted_answer x t h = elim (Result-cases (nonblank_field u 4_000 x)) [
    | inr (f, e) ↦ absurd (ground arith)
    | inl (t', e) ↦ let same : t' ≡ t = ground arith in nonblank_again x t (e ∙ ap ok same)
  ]

  -- A result is returned that meets the contract, and is supported if it is an answer.
  Ends : RetrievalResult → Result Fault ChatResult → Type 0
  Ends r x =
      (chat : ChatResult) × (x ≡ ok chat)
      × IsGrounded u chat
      × (chat.outcome ≡ ChatOutcome.answer → Supported ports.resolve r chat)

  failure-Ends :
      (r : RetrievalResult) (reason : ChatReason)
      → is_refusal_reason reason ≡ true
      → Ends r (fixed_refusal u reason (some r.retrieval_run_id))
  unfolding Ends
  failure-Ends r reason h =
      let (chat, made, grounded_one, refusal) =
        fixed_refusal-IsGrounded u closed texts reason (some r.retrieval_run_id) h (ground arith) in
      (chat, made, grounded_one, λ o. absurd (ground (arith, refusal, o)))

  answer_with-Ends :
      (r : RetrievalResult) (g : GroundingEvidence) (generation : Generation) (answer : Text)
      → r.decision ≡ RetrievalDecision.evidence_available
      → Evident r g
      → nonblank_field u 4_000 answer ≡ ok answer
      → Ends r (answer_with u p s max_response_bytes ports r g generation answer)
  unfolding Ends answer_with result_route
  answer_with-Ends r g generation answer decided evident accepted =
      elim (Result-cases
        (reresolve_citations ports.resolve r.retrieval_run_id r.candidates g.excerpts)) [
          | inr (f, e) ↦
              rw (answer_with, e) (failure-Ends r ChatReason.citation_revalidation_failure refl)
          | inl (cs, e) ↦
              let grounds =
                reresolve_citations-Grounds ports.resolve r.retrieval_run_id r.candidates g.excerpts
                  cs (sym evident.ids) evident.own e in
              let size : length cs ≡ length g.excerpts =
                sym (length-map_ids cs)
                ∙ ap length grounds.same_ids
                ∙ length-map_excerpts g.excerpts in
              let unique : nodup (citation_ids cs) ≡ true =
                subst (λ ids. nodup ids ≡ true) (sym grounds.same_ids) evident.unique in
              let present = no_citations_present cs (omega (arith, size, evident.present)) in
              let few : length cs ≤ 6 = omega (arith, size, evident.few) in
              let raw : ChatResult = record {
                outcome = ChatOutcome.answer;
                reason = ChatReason.answer_grounded;
                answer = answer;
                retrieval_run_id = some r.retrieval_run_id;
                citations = cs;
                provider = some generation.provider;
                model = some generation.model;
                provider_request_id = generation.request_id;
              } in
              let (made, grounded_one) =
                grounded_result-IsGrounded_of u closed raw answer accepted
                  (ground (arith, few, unique, grounds.of_one_run, present)) in
              (
                raw,
                rw (answer_with, e) made,
                grounded_one,
                λ o. record {
                  decided = decided;
                  run = refl;
                  cited = grounds.same_ids ∙ evident.ids;
                  chunks = grounds.same_chunks ∙ evident.chunks;
                  resolves = grounds.resolves;
                },
              )
        ]

  read_output-Ends :
      (r : RetrievalResult) (g : GroundingEvidence) (generation : Generation)
      → r.decision ≡ RetrievalDecision.evidence_available
      → Evident r g
      → Ends r (read_output u p s max_response_bytes ports r g generation)
  unfolding Ends read_output answered_by
  read_output-Ends r g generation decided evident =
      elim (Result-cases (answered_by u p s max_response_bytes ports generation)) [
        | inr (f, e) ↦ rw (read_output, e) (failure-Ends r ChatReason.invalid_provider_output refl)
        | inl (answer, e) ↦ elim (Result-cases (heard (ports.parse generation.text))) [
          | inr (f, q) ↦ absurd (ground (arith, q))
          | inl (parsed, q) ↦
              let valid : validate_provider_answer u p s parsed ≡ ok answer = ground (arith, q) in
              rw (read_output, e)
                (answer_with-Ends r g generation answer decided evident
                  (accepted_answer parsed answer valid))
        ]
      ]

  generated-Ends :
      (r : RetrievalResult) (g : GroundingEvidence) (prompt : Text)
      → r.decision ≡ RetrievalDecision.evidence_available
      → Evident r g
      → Ends r (generated u p s max_response_bytes ports r g prompt)
  unfolding Ends generated
  generated-Ends r g prompt decided evident =
      elim (Result-cases (generation_for u p s max_response_bytes ports prompt)) [
        | inr (f, e) ↦ rw (generated, e) (failure-Ends r ChatReason.provider_failure refl)
        | inl (value, e) ↦ elim (Result-cases (validate_generation_result value)) [
          | inr (f, q) ↦
              rw (generated, e, q) (failure-Ends r ChatReason.invalid_provider_output refl)
          | inl (generation, q) ↦
              rw (generated, e, q) (read_output-Ends r g generation decided evident)
        ]
      ]

  grounded-Evident :
      (guarded : ChatRequest) (r : RetrievalResult) (g : GroundingEvidence) (prompt : Text)
      → grounded u p s max_response_bytes ports guarded r ≡ ok (g, prompt)
      → Evident r g
  unfolding grounded evidence_for
  grounded-Evident guarded r g prompt h =
      elim (Result-cases (evidence_for u p s max_response_bytes ports r)) [
        | inr (f, e) ↦ absurd (ground (arith, e))
        | inl (g', e) ↦
            elim (Result-cases
              (heard (ports.load r.retrieval_run_id (candidate_ids r.candidates)))) [
                | inr (f, q) ↦ absurd (ground (arith, e, q))
                | inl (value, q) ↦ elim (Result-cases (build_grounded_prompt guarded g' s)) [
                  | inr (f, k) ↦ absurd (ground (arith, e, k))
                  | inl (t, k) ↦
                      let same : g' ≡ g = ground (arith, e, k) in
                      let checked : validate_grounding_evidence u value r ≡ ok g' =
                        ground (arith, e, q) in
                      subst (Evident r) same (evidence-Evident u value g' r checked)
                ]
              ]
      ]

  eligible_answer-Ends :
      (guarded : ChatRequest) (r : RetrievalResult)
      → r.decision ≡ RetrievalDecision.evidence_available
      → Ends r (eligible_answer u p s max_response_bytes ports guarded r)
  unfolding Ends eligible_answer
  eligible_answer-Ends guarded r decided =
      elim (Result-cases (grounded u p s max_response_bytes ports guarded r)) [
        | inr (f, e) ↦ rw (eligible_answer, e) (failure-Ends r ChatReason.grounding_failure refl)
        | inl ((g, prompt), e) ↦
            rw (eligible_answer, e)
              (generated-Ends r g prompt decided (grounded-Evident guarded r g prompt e))
      ]

  clarified-Ends :
      (guarded : ChatRequest) (r : RetrievalResult)
      → Ends r (routed u p s max_response_bytes ports guarded r clarified)
  unfolding Ends routed result_route
  clarified-Ends guarded r =
      let raw : ChatResult = record {
        outcome = ChatOutcome.clarification;
        reason = ChatReason.no_results;
        answer = no_results_clarification_text;
        retrieval_run_id = some r.retrieval_run_id;
        citations = [];
        provider = none;
        model = none;
        provider_request_id = none;
      } in
      let (made, grounded_one) =
        grounded_result-IsGrounded_of u closed raw no_results_clarification_text texts.clarification
          refl in
      (raw, made, grounded_one, λ o. absurd (ground (arith, o)))

  routed-Ends :
      (guarded : ChatRequest) (r : RetrievalResult) (d : RetrievalDecision)
      → r.decision ≡ d
      → Ends r (routed u p s max_response_bytes ports guarded r (retrieval_policy_decision d))
  unfolding retrieval_policy_decision routed
  routed-Ends guarded r RetrievalDecision.evidence_available h = eligible_answer-Ends guarded r h
  routed-Ends guarded r RetrievalDecision.no_results h = clarified-Ends guarded r
  routed-Ends guarded r RetrievalDecision.unsupported_temporal_scope h =
      failure-Ends r ChatReason.unsupported_temporal_scope refl
  routed-Ends guarded r RetrievalDecision.invalid_evidence_chain h =
      failure-Ends r ChatReason.invalid_evidence_chain refl

  -- A request ends with the retrieval failure, or as its retrieval does.
  answer_request_route :
      (request : ChatRequest) (r : RetrievalResult)
      → retrieval_for u p s max_response_bytes ports request ≡ ok r
      → Ends r (answer_request u p s max_response_bytes ports request)
  unfolding Ends answer_request
  answer_request_route request r h =
      rw (answer_request, h) (routed-Ends (apply_temporal_guard u p request) r r.decision refl)

  pub answer_request_closed :
      (request : ChatRequest)
      → (chat : ChatResult) × (answer_request u p s max_response_bytes ports request ≡ ok chat)
        × IsGrounded u chat
  unfolding Ends answer_request
  answer_request_closed request =
      elim (Result-cases (retrieval_for u p s max_response_bytes ports request)) [
        | inl (r, e) ↦
            let (chat, made, grounded_one, supported) = answer_request_route request r e in
            (chat, made, grounded_one)
        | inr (f, e) ↦
            let (chat, made, grounded_one, refusal) =
              fixed_refusal-IsGrounded u closed texts ChatReason.retrieval_failure none refl refl in
            (chat, rw (answer_request, e) made, grounded_one)
      ]

  -- An answer of `respond` cites, in their order, the candidates of its retrieval, which had evidence, and
  -- its citations are what the resolver returns for their identifiers, where the fixed texts meet
  -- their contracts and the normal form is closed under substrings.
  pub answer_request-Supported :
      (request : ChatRequest) (chat : ChatResult)
      → answer_request u p s max_response_bytes ports request ≡ ok chat
      → chat.outcome ≡ ChatOutcome.answer
      → (r : RetrievalResult) × (retrieval_for u p s max_response_bytes ports request ≡ ok r)
        × Supported ports.resolve r chat
  unfolding Ends answer_request
  answer_request-Supported request chat h o =
      elim (Result-cases (retrieval_for u p s max_response_bytes ports request)) [
        | inl (r, e) ↦
            let (chat', made, grounded_one, supported) = answer_request_route request r e in
            let same : chat' ≡ chat = ground (arith, made, h) in
            (
              r,
              e,
              subst (Supported ports.resolve r) same
                  (supported (ap (λ (x : ChatResult). x.outcome) same ∙ o)),
            )
        | inr (f, e) ↦
            let (chat', made, grounded_one, refusal) =
              fixed_refusal-IsGrounded u closed texts ChatReason.retrieval_failure none refl refl in
            let made' : answer_request u p s max_response_bytes ports request ≡ ok chat' =
              rw (answer_request, e) made in
            let same : chat' ≡ chat = ground (arith, made', h) in
            absurd (ground (arith, refusal, o, same))
      ]
