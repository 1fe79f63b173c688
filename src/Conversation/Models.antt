-- ===== src/Conversation/Models.antt =====
-- conversation/models.py and conversation/errors.py: what crosses the boundary to the channel.
use legal_chatbot_ueb_demo_s.Prelude.{
  ℕ, Bool, not, ◌&&◌, Option, none, some, leb, length, Text, if◌then◌else◌,
}
use legal_chatbot_ueb_demo_s.Table.{is_some}
use legal_chatbot_ueb_demo_s.Unicode.{Unicode, normalize_safe_text}

pub data ConversationErrorCode : Type 0 where
  not_found expired in_progress busy conflict : ConversationErrorCode
  delivery_invalid state_invalid lease_expired persistence_failure : ConversationErrorCode

pub data ExchangeStatus : Type 0 where
  processing completed failed abandoned : ExchangeStatus

abbrev pub user_text_max_chars : ℕ
user_text_max_chars = 4_000

abbrev pub delivery_id_max_chars : ℕ
delivery_id_max_chars = 256

-- `ConversationRequest`, without its temporal scope, which keeps its default here.
pub record ConversationRequest : Type 0 where
  pub conversation_id : ℕ
  pub delivery_id : Text
  pub text : Text

-- The constructor with its validators.
unfoldable pub conversation_request : Unicode → ℕ → Text → Text → Option ConversationRequest
conversation_request u conversation_id delivery_id text = elim (normalize_safe_text u delivery_id) [
  | none ↦ none
  | some d ↦ elim (normalize_safe_text u text) [
    | none ↦ none
    | some t ↦
        if leb (length d) delivery_id_max_chars && leb (length t) user_text_max_chars
        then some (record { conversation_id = conversation_id; delivery_id = d; text = t })
        else none
  ]
]

pub record ConversationResult (Chat : Type 0) : Type 0 where
  pub conversation_id : ℕ
  pub exchange_id : ℕ
  pub status : ExchangeStatus
  pub duplicate : Bool
  pub chat : Option Chat

abbrev result_shape : ExchangeStatus → Bool → Bool → Bool
result_shape ExchangeStatus.completed duplicate answered = answered
result_shape ExchangeStatus.processing duplicate answered = not answered
result_shape _ duplicate answered = not answered && not duplicate

-- `validate_result_shape`
abbrev pub valid_result : {Chat : Type 0} → ConversationResult Chat → Bool
valid_result r = result_shape r.status r.duplicate (is_some r.chat)

-- `ConversationSettings` of conversation/config.py
pub record Settings : Type 0 where
  pub recent_completed_turn_limit : ℕ
  pub rolling_summary_max_chars : ℕ
  pub active_topic_max_chars : ℕ
  pub context_max_chars : ℕ
  pub reference_limit : ℕ
  pub retained_exchange_limit : ℕ
  pub retention_seconds : ℕ
  pub processing_lease_seconds : ℕ

abbrev within : ℕ → ℕ → ℕ → Bool
within low high n = leb low n && leb n high

-- The bounds of its fields.
abbrev pub valid_settings : Settings → Bool
valid_settings s =
    within 1 4 s.recent_completed_turn_limit
    && within 1 1_500 s.rolling_summary_max_chars
    && within 1 256 s.active_topic_max_chars
    && within 1 1_000 s.context_max_chars
    && within 1 6 s.reference_limit
    && within 2 32 s.retained_exchange_limit
    && within 60 604_800 s.retention_seconds
    && within 1 120 s.processing_lease_seconds
