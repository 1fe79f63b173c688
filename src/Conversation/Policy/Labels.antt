-- ===== src/Conversation/Policy/Labels.antt =====
-- The normalisers of conversation/policy.py, and the text of a compaction candidate.
use legal_chatbot_ueb_demo_s.Prelude.{
  ℕ, zero, suc, ◌+◌, ◌-◌, ◌*◌, ◌/◌, Option, none, some, List, [], ◌∷◌, ◌++◌, ltb, leb, String,
  if◌then◌else◌, length, take, Text, codes, Result, ok, err, ◌>>=◌,
}
use legal_chatbot_ueb_demo_s.Unicode.{Unicode, normalize_safe_text}
use legal_chatbot_ueb_demo_s.Conversation.Models.{ConversationErrorCode, ExchangeStatus, Settings}
use legal_chatbot_ueb_demo_s.Conversation.Store.{ChatOutcome, Fault, conversation_error}
use legal_chatbot_ueb_demo_s.Conversation.State.{Candidate}

module _ (u : Unicode) where
  -- `_normalize`
  unfoldable pub normalize_bounded : Text → ℕ → ConversationErrorCode → Result Fault Text
  normalize_bounded text max_chars code = elim (normalize_safe_text u text) [
    | none ↦ err (conversation_error code)
    | some t ↦ if leb (length t) max_chars then ok t else err (conversation_error code)
  ]

  -- `derive_retrieval_query`
  unfoldable pub derive_retrieval_query : Text → Option Text → Result Fault Text
  unfolding normalize_bounded
  derive_retrieval_query current_text none =
      normalize_bounded current_text 4_000 ConversationErrorCode.delivery_invalid
  derive_retrieval_query current_text (some active_topic) = do
    text ← normalize_bounded current_text 4_000 ConversationErrorCode.delivery_invalid
    topic ← normalize_bounded active_topic 256 ConversationErrorCode.state_invalid
    let candidate = text ++ (codes "\nActive topic: " ++ topic)
    ok (if ltb 4_000 (length candidate) then text else candidate)

  -- `derive_active_topic`
  unfoldable pub derive_active_topic : Text → Settings → Result Fault Text
  unfolding normalize_bounded
  derive_active_topic current_text s = do
    text ← normalize_bounded current_text 4_000 ConversationErrorCode.delivery_invalid
    ok (take s.active_topic_max_chars text)

  -- `_safe_optional_summary`
  unfoldable pub safe_optional_summary : Option Text → Result Fault (Option Text)
  unfolding normalize_bounded
  safe_optional_summary none = ok none
  safe_optional_summary (some value) = do
    t ← normalize_bounded value 1_500 ConversationErrorCode.state_invalid
    ok (some t)

  -- `_safe_label`
  unfoldable pub safe_label : Option Text → Text → Text
  safe_label none default = default
  safe_label (some value) default = elim (normalize_safe_text u value) [
    | none ↦ default
    | some t ↦ take 64 t
  ]

  -- `_safe_snippet`
  unfoldable pub safe_snippet : Text → Text
  safe_snippet value = elim (normalize_safe_text u value) [
    | none ↦ codes "[invalid]"
    | some t ↦ take 160 t
  ]

-- `str` of a number, with its digits as fuel.
unfoldable pub decimal_onto : ℕ → ℕ → Text → Text
decimal_onto zero n digits = digits
decimal_onto (suc fuel) n digits =
    let last = b'0' + (n - n / 10 * 10) in
    let rest = decimal_onto fuel (n / 10) (last ∷ digits) in
    if ltb n 10 then last ∷ digits else rest

abbrev pub decimal : ℕ → Text
decimal n = decimal_onto (suc n) n []

-- `separator.join(values)`
unfoldable pub join : Text → List Text → Text
join separator [] = []
join separator (x ∷ []) = x
join separator (x ∷ xs) = x ++ (separator ++ join separator xs)

abbrev status_value : ExchangeStatus → String
status_value ExchangeStatus.processing = "PROCESSING"
status_value ExchangeStatus.completed = "COMPLETED"
status_value ExchangeStatus.failed = "FAILED"
status_value ExchangeStatus.abandoned = "ABANDONED"

abbrev outcome_value : ChatOutcome → String
outcome_value ChatOutcome.answer = "ANSWER"
outcome_value ChatOutcome.clarification = "CLARIFICATION"
outcome_value ChatOutcome.refusal = "REFUSAL"

abbrev outcome_text : Option ChatOutcome → Option Text
outcome_text none = none
outcome_text (some outcome) = some (codes (outcome_value outcome))

abbrev kept : Text → List Text → List Text
kept [] values = values
kept (c ∷ cs) values = (c ∷ cs) ∷ values

abbrev kept_all : List Text → List Text
kept_all [] = []
kept_all (e ∷ es) = kept e (kept_all es)

-- `tuple(value for value in (summary, *entries) if value)`
abbrev pub nonempty : Option Text → List Text → List Text
nonempty none entries = kept_all entries
nonempty (some summary) entries = kept summary (kept_all entries)

module _ (u : Unicode) where
  unfoldable pub assistant_snippet : Option Text → List Text
  unfolding safe_snippet
  assistant_snippet none = []
  assistant_snippet (some text) = (codes "assistant=" ++ safe_snippet u text) ∷ []

  -- `_render_compaction_candidate` of a `ConversationCompactionCandidate`, which has no role.
  unfoldable pub render_candidate : Candidate → Text
  unfolding safe_label safe_snippet decimal_onto join assistant_snippet
  render_candidate c = join (codes "; ") (
      (codes "status=" ++ safe_label u (some (codes (status_value c.status))) (codes "COMPLETED"))
      ∷ codes "role=NONE"
      ∷ (codes "outcome=" ++ safe_label u (outcome_text c.chat_outcome) (codes "NONE"))
      ∷ (codes "reason=" ++ safe_label u c.chat_reason (codes "NONE"))
      ∷ (codes "citations=" ++ decimal c.citation_count)
      ∷ (codes "documents=" ++ decimal c.document_count)
      ∷ (codes "user=" ++ safe_snippet u c.user_text)
      ∷ assistant_snippet c.assistant_text)

  unfoldable pub rendered : List Candidate → List Text
  unfolding render_candidate
  rendered [] = []
  rendered (c ∷ cs) = render_candidate c ∷ rendered cs
