-- ===== src/Chat/Policy.antt =====
-- chat/policy.py: the temporal guard and the table of the retrieval decisions, but for the refusals,
-- which Conversation/Results has.
use legal_chatbot_ueb_demo_s.Prelude.{List, [], ◌∷◌, if◌then◌else◌, Text, codes}
use legal_chatbot_ueb_demo_s.Unicode.{Unicode}
use legal_chatbot_ueb_demo_s.Conversation.Store.{ChatReason}
use legal_chatbot_ueb_demo_s.Conversation.Policy.Contracts.{ChatRequest, TemporalScope}
use legal_chatbot_ueb_demo_s.Chat.Words.{Patterns, contains_text, any}
use legal_chatbot_ueb_demo_s.Chat.Retrieved.{RetrievalDecision}

abbrev as_of_phrases : List Text
as_of_phrases = codes "as of" ∷ codes "as at" ∷ codes "tại thời điểm" ∷ []

abbrev current_effect_phrases : List Text
current_effect_phrases =
    codes "đang có hiệu lực"
    ∷ codes "hiện nay"
    ∷ codes "hiện tại"
    ∷ codes "currently effective"
    ∷ codes "currently in effect"
    ∷ []

abbrev pub no_results_clarification_text : Text
no_results_clarification_text =
    codes
      "Dạ, em chưa tìm thấy thông tin phù hợp. Thầy/cô vui lòng làm rõ câu hỏi hoặc cung cấp thêm chi tiết."

unfoldable pub scope_of : Text → TemporalScope
unfolding contains_text
scope_of question =
    if any (λ p. contains_text p question) as_of_phrases
    then TemporalScope.as_of
    else if any (λ p. contains_text p question) current_effect_phrases
    then TemporalScope.current_effect
    else TemporalScope.no_scope

abbrev pub guarded : TemporalScope → Text → TemporalScope
guarded TemporalScope.no_scope question = scope_of question
guarded scope question = scope

-- `effective_temporal_scope`
unfoldable pub effective_temporal_scope : Unicode → Patterns → ChatRequest → TemporalScope
effective_temporal_scope u p request =
    guarded request.temporal_scope (p.casefold (u.nfc request.question))

-- `apply_temporal_guard`
unfoldable pub apply_temporal_guard : Unicode → Patterns → ChatRequest → ChatRequest
unfolding effective_temporal_scope
apply_temporal_guard u p request = record request {
  temporal_scope = effective_temporal_scope u p request;
}

-- `retrieval_policy_decision`: the route of a decision.
pub data Route : Type 0 where
  eligible clarified : Route
  refused : ChatReason → Route

unfoldable pub retrieval_policy_decision : RetrievalDecision → Route
retrieval_policy_decision RetrievalDecision.evidence_available = eligible
retrieval_policy_decision RetrievalDecision.no_results = clarified
retrieval_policy_decision RetrievalDecision.unsupported_temporal_scope =
    refused ChatReason.unsupported_temporal_scope
retrieval_policy_decision RetrievalDecision.invalid_evidence_chain =
    refused ChatReason.invalid_evidence_chain
