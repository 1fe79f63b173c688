-- ===== src/Conversation/Results.antt =====
-- The contract `GroundedChatResult` of chat/models.py, and the fixed refusals of chat/policy.py that
-- conversation/service.py answers with.
use legal_chatbot_ueb_demo_s.Prelude.{
  ℕ, Bool, true, false, not, ◌&&◌, ◌||◌, Option, none, some, List, [], ◌∷◌, map, leb, ◌==◌, length,
  Text, codes, Result, ok, err, ◌>>=◌, ◌>>◌, require,
}
use legal_chatbot_ueb_demo_s.Table.{is_some}
use legal_chatbot_ueb_demo_s.Unicode.{Unicode}
use legal_chatbot_ueb_demo_s.Conversation.Store.{
  ChatOutcome, ChatReason, ChatResult, Citation, Fault, validation_error, is_refusal_reason,
  is_grounded, is_no_results, is_retrieval_failure,
}
use legal_chatbot_ueb_demo_s.Conversation.Snapshots.{nodup}
use legal_chatbot_ueb_demo_s.Conversation.Policy.Contracts.{nonblank_field}

abbrev pub citation_ids : List Citation → List ℕ
citation_ids cs = map (λ c. c.citation_id) cs

abbrev pub document_ids : List Citation → List ℕ
document_ids cs = map (λ c. c.document_id) cs

abbrev pub no_metadata : ChatResult → Bool
no_metadata r = not (is_some r.provider || is_some r.model || is_some r.provider_request_id)

abbrev pub no_citations : List Citation → Bool
no_citations [] = true
no_citations (c ∷ cs) = false

abbrev pub route : ChatOutcome → ChatResult → Bool
route ChatOutcome.answer r =
    is_grounded r.reason
    && is_some r.retrieval_run_id
    && not (no_citations r.citations)
    && is_some r.provider
    && is_some r.model
route ChatOutcome.clarification r =
    is_no_results r.reason
    && is_some r.retrieval_run_id
    && no_citations r.citations
    && no_metadata r
route ChatOutcome.refusal r =
    is_refusal_reason r.reason
    && no_citations r.citations
    && no_metadata r
    && (is_retrieval_failure r.reason || is_some r.retrieval_run_id)

abbrev pub of_run : Option ℕ → List Citation → Bool
of_run none cs = true
of_run (some run) [] = true
of_run (some run) (c ∷ cs) = c.retrieval_run_id == run && of_run (some run) cs

-- The validators of `GroundedChatResult` that are not about its answer.
unfoldable pub result_route : ChatResult → Bool
result_route r =
    leb (length r.citations) 6
    && nodup (citation_ids r.citations)
    && of_run r.retrieval_run_id r.citations
    && route r.outcome r

-- `GroundedChatResult`; what the provider fields may hold is left to their type.
unfoldable pub grounded_result : Unicode → ChatResult → Result Fault ChatResult
unfolding nonblank_field
grounded_result u r = do
  text ← nonblank_field u 4_000 r.answer
  require (result_route r) validation_error
  ok (record r { answer = text })

abbrev pub generic_refusal_text : Text
generic_refusal_text =
    codes
      "Dạ, em chưa có đủ thông tin đáng tin cậy để trả lời câu hỏi này. Thầy/cô vui lòng làm rõ câu hỏi hoặc cung cấp thêm chi tiết."

abbrev temporal_refusal_text : Text
temporal_refusal_text =
    codes
      "Dạ, trong phạm vi bản demo này, em không thể trả lời về hiệu lực pháp lý tại một thời điểm cụ thể. Thầy/cô có thể hỏi về nội dung của văn bản được cung cấp."

-- The fixed text of `refusal_decision`, which raises for a reason that is no refusal.
unfoldable pub refusal_text : ChatReason → Result Fault Text
refusal_text ChatReason.unsupported_temporal_scope = ok temporal_refusal_text
refusal_text ChatReason.answer_eligible = err validation_error
refusal_text ChatReason.answer_grounded = err validation_error
refusal_text ChatReason.no_results = err validation_error
refusal_text _ = ok generic_refusal_text

-- `_fixed_refusal`
unfoldable pub fixed_refusal : Unicode → ChatReason → Option ℕ → Result Fault ChatResult
unfolding refusal_text grounded_result
fixed_refusal u reason run = do
  text ← refusal_text reason
  grounded_result u (record {
    outcome = ChatOutcome.refusal;
    reason = reason;
    answer = text;
    retrieval_run_id = run;
    citations = [];
    provider = none;
    model = none;
    provider_request_id = none;
  })
