-- ===== src/Conversation/State.antt =====
-- The contracts of conversation/models.py for the state of a conversation: turns, references, the
-- snapshot, and the candidates of a compaction, each with its validators.
use legal_chatbot_ueb_demo_s.Prelude.{
  ℕ, ◌+◌, Bool, true, false, not, ◌&&◌, ◌||◌, Option, none, some, List, [], ◌∷◌, ltb, leb, ◌==◌,
  String, if◌then◌else◌, length, Text, codes, Result, ok, err, ◌>>=◌, ◌>>◌, require,
}
use legal_chatbot_ueb_demo_s.Table.{is_some}
use legal_chatbot_ueb_demo_s.Unicode.{Unicode, normalize_safe_text}
use legal_chatbot_ueb_demo_s.Conversation.Models.{ExchangeStatus}
use legal_chatbot_ueb_demo_s.Conversation.Store.{
  ChatOutcome, ChatReason, Stored, Exchange, Fault, validation_error, is_refusal_reason,
  is_grounded, is_no_results,
}

-- A field that `_normalize_safe_text` normalizes, with a bound on its length.
unfoldable pub safe_field : Unicode → ℕ → Text → Result Fault Text
safe_field u max_length text = elim (normalize_safe_text u text) [
  | none ↦ err validation_error
  | some t ↦ if leb (length t) max_length then ok t else err validation_error
]

unfoldable pub safe_optional_field : Unicode → ℕ → Option Text → Result Fault (Option Text)
unfolding safe_field
safe_optional_field u max_length none = ok none
safe_optional_field u max_length (some text) = do t ← safe_field u max_length text; ok (some t)

pub data TurnRole : Type 0 where
  user assistant : TurnRole

pub record Turn : Type 0 where
  pub ordinal : ℕ
  pub role : TurnRole
  pub text : Text
  pub outcome : Option ChatOutcome
  pub reason : Option ChatReason

abbrev answered_turn : ChatOutcome → ChatReason → Bool
answered_turn ChatOutcome.answer reason = is_grounded reason
answered_turn ChatOutcome.clarification reason = is_no_results reason
answered_turn ChatOutcome.refusal reason = is_refusal_reason reason

-- `validate_turn_shape`
abbrev turn_shape : TurnRole → Option ChatOutcome → Option ChatReason → Bool
turn_shape TurnRole.user none none = true
turn_shape TurnRole.user _ _ = false
turn_shape TurnRole.assistant (some outcome) (some reason) = answered_turn outcome reason
turn_shape TurnRole.assistant _ _ = false

-- `ConversationTurn`
unfoldable pub conversation_turn :
    Unicode → ℕ → TurnRole → Text → Option ChatOutcome → Option ChatReason → Result Fault Turn
unfolding safe_field
conversation_turn u ordinal role text outcome reason = do
  t ← safe_field u 4_000 text
  require (leb 1 ordinal && turn_shape role outcome reason) validation_error
  ok (record { ordinal = ordinal; role = role; text = t; outcome = outcome; reason = reason })

pub data ReferenceKind : Type 0 where
  citation document : ReferenceKind

pub record Reference : Type 0 where
  pub kind : ReferenceKind
  pub reference_id : ℕ
  pub ordinal : ℕ

abbrev pub same_kind : ReferenceKind → ReferenceKind → Bool
same_kind ReferenceKind.citation ReferenceKind.citation = true
same_kind ReferenceKind.document ReferenceKind.document = true
same_kind _ _ = false

-- Whether a reference has the kind of another, and its identity or its ordinal.
abbrev clashes_with : Reference → Reference → Bool
clashes_with r s =
    same_kind r.kind s.kind && (r.reference_id == s.reference_id || r.ordinal == s.ordinal)

abbrev pub clear_of : Reference → List Reference → Bool
clear_of r [] = true
clear_of r (s ∷ rs) = not (clashes_with r s) && clear_of r rs

abbrev pub unique_references : List Reference → Bool
unique_references [] = true
unique_references (r ∷ rs) = clear_of r rs && unique_references rs

unfoldable pub kind_count : ReferenceKind → List Reference → ℕ
kind_count k [] = 0
kind_count k (r ∷ rs) = (if same_kind k r.kind then 1 else 0) + kind_count k rs

-- `ConversationReference` bounds the ordinal.
abbrev pub small_ordinals : List Reference → Bool
small_ordinals [] = true
small_ordinals (r ∷ rs) = leb r.ordinal 5 && small_ordinals rs

abbrev pub increasing : List Turn → Bool
increasing [] = true
increasing (t ∷ []) = true
increasing (t ∷ t' ∷ ts) = ltb t.ordinal t'.ordinal && increasing (t' ∷ ts)

pub record Snapshot : Type 0 where
  pub state_version : ℕ
  pub rolling_summary : Option Text
  pub active_topic : Option Text
  pub recent_turns : List Turn
  pub references : List Reference

-- `validate_snapshot_bounds`, with the bounds of the fields.
unfoldable pub snapshot_bounds : List Turn → List Reference → Bool
unfolding kind_count
snapshot_bounds turns references =
    leb (length turns) 4
    && increasing turns
    && unique_references references
    && small_ordinals references
    && leb (kind_count ReferenceKind.citation references) 6
    && leb (kind_count ReferenceKind.document references) 6

-- `ConversationStateSnapshot`
unfoldable pub conversation_snapshot :
    Unicode → ℕ → Option Text → Option Text → List Turn → List Reference → Result Fault Snapshot
unfolding safe_optional_field snapshot_bounds
conversation_snapshot u version summary topic turns references = do
  s ← safe_optional_field u 1_500 summary
  t ← safe_optional_field u 256 topic
  require (snapshot_bounds turns references) validation_error
  ok (record {
    state_version = version;
    rolling_summary = s;
    active_topic = t;
    recent_turns = turns;
    references = references;
  })

-- `ConversationCompactionCandidate`
pub record Candidate : Type 0 where
  pub exchange_id : ℕ
  pub ordinal : ℕ
  pub status : ExchangeStatus
  pub user_text : Text
  pub assistant_text : Option Text
  pub chat_outcome : Option ChatOutcome
  pub chat_reason : Option Text
  pub citation_count : ℕ
  pub document_count : ℕ

-- `validate_terminal_candidate_shape`
abbrev terminal_shape : ExchangeStatus → Bool → Bool → Bool → Bool
terminal_shape ExchangeStatus.completed text outcome reason = text && outcome && reason
terminal_shape ExchangeStatus.processing text outcome reason = false
terminal_shape _ text outcome reason = not text && not outcome

abbrev pub reason_value : ChatReason → String
reason_value ChatReason.answer_eligible = "ANSWER_ELIGIBLE"
reason_value ChatReason.answer_grounded = "ANSWER_GROUNDED"
reason_value ChatReason.no_results = "NO_RESULTS"
reason_value ChatReason.unsupported_temporal_scope = "UNSUPPORTED_TEMPORAL_SCOPE"
reason_value ChatReason.invalid_evidence_chain = "INVALID_EVIDENCE_CHAIN"
reason_value ChatReason.retrieval_failure = "RETRIEVAL_FAILURE"
reason_value ChatReason.grounding_failure = "GROUNDING_FAILURE"
reason_value ChatReason.provider_failure = "PROVIDER_FAILURE"
reason_value ChatReason.invalid_provider_output = "INVALID_PROVIDER_OUTPUT"
reason_value ChatReason.citation_revalidation_failure = "CITATION_REVALIDATION_FAILURE"

-- The columns of a row that its result, or the code of its failure, fills.
abbrev assistant_text_of : Option Stored → Option Text
assistant_text_of none = none
assistant_text_of (some r) = some r.answer

abbrev outcome_of : Option Stored → Option ChatOutcome
outcome_of none = none
outcome_of (some r) = some r.outcome

abbrev failure_text : Option String → Option Text
failure_text none = none
failure_text (some reason) = some (codes reason)

abbrev reason_of : Option Stored → Option String → Option Text
reason_of none failure = failure_text failure
reason_of (some r) failure = some (codes (reason_value r.reason))

abbrev citations_of : Option Stored → ℕ
citations_of none = 0
citations_of (some r) = length r.citation_ids

abbrev documents_of : Option Stored → ℕ
documents_of none = 0
documents_of (some r) = length r.document_ids

-- `_compaction_candidate` of conversation/repository.py
unfoldable pub compaction_candidate : Unicode → Exchange → Result Fault Candidate
unfolding safe_field safe_optional_field
compaction_candidate u e = do
  user_text ← safe_field u 4_000 e.user_text
  assistant_text ← safe_optional_field u 4_000 (assistant_text_of e.result)
  chat_reason ← safe_optional_field u 64 (reason_of e.result e.failure_reason)
  require
      (leb 1 e.ordinal
        && leb (citations_of e.result) 6
        && leb (documents_of e.result) 6
        && terminal_shape e.status (is_some assistant_text) (is_some (outcome_of e.result))
            (is_some chat_reason))
      validation_error
  ok (record {
    exchange_id = e.id;
    ordinal = e.ordinal;
    status = e.status;
    user_text = user_text;
    assistant_text = assistant_text;
    chat_outcome = outcome_of e.result;
    chat_reason = chat_reason;
    citation_count = citations_of e.result;
    document_count = documents_of e.result;
  })
