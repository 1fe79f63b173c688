-- ===== src/Chat/Service/Returns.antt =====
-- Results of the chat that meet their contract: the fixed ones and the answer.
use legal_chatbot_ueb_demo_s.Prelude.{
  ℕ, ◌≡◌, refl, true, ◌||◌, Option, none, some, [], Text, ok, arith,
}
use legal_chatbot_ueb_demo_s.Table.{is_some}
use legal_chatbot_ueb_demo_s.Unicode.{Unicode}
use legal_chatbot_ueb_demo_s.Unicode.Substrings.{ClosedUnderSubstring}
use legal_chatbot_ueb_demo_s.Conversation.Store.{
  ChatOutcome, ChatReason, ChatResult, is_refusal_reason, is_retrieval_failure,
}
use legal_chatbot_ueb_demo_s.Conversation.Policy.Contracts.{nonblank_field}
use legal_chatbot_ueb_demo_s.Conversation.Results.{
  grounded_result, fixed_refusal, refusal_text, result_route, of_run,
}
use legal_chatbot_ueb_demo_s.Conversation.Service.Replays.{IsGrounded, grounded_result-IsGrounded}
use legal_chatbot_ueb_demo_s.Chat.Policy.{no_results_clarification_text}

-- The contracts accept the fixed texts as they are.
pub record FixedTexts (u : Unicode) : Type 0 where
  pub refusals :
      (reason : ChatReason) (t : Text)
      → refusal_text reason ≡ ok t
      → nonblank_field u 4_000 t ≡ ok t
  pub clarification :
      nonblank_field u 4_000 no_results_clarification_text ≡ ok no_results_clarification_text

module _ (u : Unicode) (closed : ClosedUnderSubstring u) where
  pub grounded_result-IsGrounded_of :
      (raw : ChatResult) (t : Text)
      → nonblank_field u 4_000 raw.answer ≡ ok t
      → result_route raw ≡ true
      → (grounded_result u raw ≡ ok (record raw { answer = t }))
        × IsGrounded u (record raw { answer = t })
  unfolding grounded_result
  grounded_result-IsGrounded_of raw t h routed =
      let made : grounded_result u raw ≡ ok (record raw { answer = t }) =
        ground (arith, h, routed) in
      (made, grounded_result-IsGrounded u closed raw (record raw { answer = t }) made)

  has_text :
      (reason : ChatReason)
      → is_refusal_reason reason ≡ true
      → (t : Text) × (refusal_text reason ≡ ok t)
  unfolding refusal_text
  has_text ChatReason.answer_eligible h = absurd (ground arith)
  has_text ChatReason.answer_grounded h = absurd (ground arith)
  has_text ChatReason.no_results h = absurd (ground arith)
  has_text ChatReason.unsupported_temporal_scope h = (_, refl)
  has_text ChatReason.invalid_evidence_chain h = (_, refl)
  has_text ChatReason.retrieval_failure h = (_, refl)
  has_text ChatReason.grounding_failure h = (_, refl)
  has_text ChatReason.provider_failure h = (_, refl)
  has_text ChatReason.invalid_provider_output h = (_, refl)
  has_text ChatReason.citation_revalidation_failure h = (_, refl)

  refused_raw : ChatReason → Option ℕ → Text → ChatResult
  refused_raw reason run t = record {
    outcome = ChatOutcome.refusal;
    reason = reason;
    answer = t;
    retrieval_run_id = run;
    citations = [];
    provider = none;
    model = none;
    provider_request_id = none;
  }

  of_run_nothing : (run : Option ℕ) → of_run run [] ≡ true
  of_run_nothing none = refl
  of_run_nothing (some n) = refl

  -- A fixed refusal is returned, and meets the contract.
  pub fixed_refusal-IsGrounded :
      (texts : FixedTexts u) (reason : ChatReason) (run : Option ℕ)
      → is_refusal_reason reason ≡ true
      → (is_retrieval_failure reason || is_some run) ≡ true
      → (chat : ChatResult) × (fixed_refusal u reason run ≡ ok chat)
        × IsGrounded u chat
        × (chat.outcome ≡ ChatOutcome.refusal)
  unfolding fixed_refusal refused_raw result_route
  fixed_refusal-IsGrounded texts reason run h ran =
      let (t, has) = has_text reason h in
      let no_run = of_run_nothing run in
      let (made, grounded) =
        grounded_result-IsGrounded_of (refused_raw reason run t) t (texts.refusals reason t has)
          (ground (arith, h, ran, no_run)) in
      (record (refused_raw reason run t) { answer = t }, rw has made, grounded, refl)
