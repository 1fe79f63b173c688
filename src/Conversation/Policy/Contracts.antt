-- ===== src/Conversation/Policy/Contracts.antt =====
-- The contracts of chat/models.py that conversation/policy.py builds.
use legal_chatbot_ueb_demo_s.Prelude.{
  ℕ, ◌+◌, Bool, true, ◌&&◌, ◌||◌, Option, none, some, List, [], ◌∷◌, ltb, leb, if◌then◌else◌,
  length, Text, Result, ok, err, ◌>>=◌, ◌>>◌, require,
}
use legal_chatbot_ueb_demo_s.Unicode.{Unicode, is_blank, normalized}
use legal_chatbot_ueb_demo_s.Conversation.Store.{Fault, validation_error}
use legal_chatbot_ueb_demo_s.Conversation.State.{TurnRole}

-- `ConversationContextTurn`
pub record ContextTurn : Type 0 where
  pub role : TurnRole
  pub text : Text
  pub ordinal : ℕ

-- `ConversationContext`
pub record Context : Type 0 where
  pub rolling_summary : Option Text
  pub active_topic : Option Text
  pub recent_turns : List ContextTurn

pub data TemporalScope : Type 0 where
  no_scope as_of current_effect : TemporalScope

-- `ChatRequest`
pub record ChatRequest : Type 0 where
  pub question : Text
  pub retrieval_query : Option Text
  pub conversation_context : Option Context
  pub temporal_scope : TemporalScope

abbrev pub option_length : Option Text → ℕ
option_length none = 0
option_length (some t) = length t

unfoldable pub turns_length : List ContextTurn → ℕ
turns_length [] = 0
turns_length (t ∷ ts) = length t.text + turns_length ts

unfoldable pub context_length : Option Text → Option Text → List ContextTurn → ℕ
context_length summary topic turns =
    option_length summary + option_length topic + turns_length turns

abbrev pub ordered : List ContextTurn → Bool
ordered [] = true
ordered (t ∷ []) = true
ordered (t ∷ t' ∷ ts) = ltb t.ordinal t'.ordinal && ordered (t' ∷ ts)

module _ (u : Unicode) where
  -- A field that `_normalized_nonblank` normalizes, with a bound on its length.
  unfoldable pub nonblank_field : ℕ → Text → Result Fault Text
  nonblank_field max_length text =
      let t = normalized u text in
      if is_blank t || ltb max_length (length t) then err validation_error else ok t

  unfoldable pub nonblank_optional : ℕ → Option Text → Result Fault (Option Text)
  unfolding nonblank_field
  nonblank_optional max_length none = ok none
  nonblank_optional max_length (some text) = do t ← nonblank_field max_length text; ok (some t)

  unfoldable pub context_turn : TurnRole → Text → ℕ → Result Fault ContextTurn
  unfolding nonblank_field
  context_turn role text ordinal = do
    t ← nonblank_field 4_000 text
    require (leb 1 ordinal) validation_error
    ok (record { role = role; text = t; ordinal = ordinal })

  unfoldable pub conversation_context :
      Option Text → Option Text → List ContextTurn → Result Fault Context
  unfolding nonblank_optional context_length
  conversation_context summary topic turns = do
    s ← nonblank_optional 1_500 summary
    t ← nonblank_optional 256 topic
    require (leb (length turns) 4 && ordered turns && leb (context_length s t turns) 1_000)
        validation_error
    ok (record { rolling_summary = s; active_topic = t; recent_turns = turns })
