-- ===== src/Conversation/Policy.antt =====
-- conversation/policy.py: the rolling summary, the projected context, the request to the chat and the
-- state update. Arguments have the types that the port declares, so the paths for other objects are
-- not modelled, nor is `_evicted_turns`, for reservations without a plan.
pub mod Contracts
pub mod Labels
use legal_chatbot_ueb_demo_s.Prelude.{
  ℕ, zero, suc, ◌+◌, ◌-◌, ◌*◌, ◌/◌, Bool, true, false, not, ◌&&◌, ◌||◌, Option, none, some, List,
  [], ◌∷◌, ◌++◌, ltb, leb, ◌==◌, String, if◌then◌else◌, length, take, drop, Text, codes, Result, ok,
  err, ◌>>=◌, ◌>>◌, require,
}
use legal_chatbot_ueb_demo_s.Unicode.{Unicode, is_blank, normalized, normalize_safe_text}
use legal_chatbot_ueb_demo_s.Conversation.Models.{
  ConversationErrorCode, delivery_invalid, state_invalid, ExchangeStatus, ConversationRequest,
  Settings,
}
use legal_chatbot_ueb_demo_s.Conversation.Store.{
  ChatOutcome, Fault, conversation_error, validation_error,
}
use legal_chatbot_ueb_demo_s.Conversation.State.{
  TurnRole, Turn, Snapshot, Candidate, safe_optional_field,
}
use legal_chatbot_ueb_demo_s.Conversation.Snapshots.{last_of, nodup}
use legal_chatbot_ueb_demo_s.Conversation.Exchanges.{Reservation}
use legal_chatbot_ueb_demo_s.Conversation.Completion.{StateUpdate}
use legal_chatbot_ueb_demo_s.Conversation.Policy.Contracts.{
  ContextTurn, Context, ChatRequest, TemporalScope, option_length, nonblank_field, context_turn,
  conversation_context,
}
use legal_chatbot_ueb_demo_s.Conversation.Policy.Labels.{
  derive_retrieval_query, derive_active_topic, safe_optional_summary, join, nonempty, rendered,
}

abbrev pub suffix : ℕ → List Text → Option Text
suffix limit [] = none
suffix limit (x ∷ xs) = some (last_of limit (join (codes " | ") (x ∷ xs)))

abbrev pub selected : ℕ → Text → Text
selected remaining text = if leb (length text) remaining then text else take remaining text

-- `except ValidationError: raise ConversationError(STATE_INVALID)`
abbrev state_invalid_on_failure : {A : Type 0} → Result Fault A → Result Fault A
state_invalid_on_failure (ok a) = ok a
state_invalid_on_failure (err (conversation_error code)) = err (conversation_error code)
state_invalid_on_failure (err f) = err (conversation_error ConversationErrorCode.state_invalid)

abbrev pub projected_summary : ℕ → Option Text → Option Text
projected_summary remaining none = none
projected_summary remaining (some summary) =
    if remaining == 0 then none else some (last_of remaining summary)

abbrev pub is_none {ℓ} : {A : Type ℓ} → Option A → Bool
is_none none = true
is_none (some a) = false

abbrev pub no_turns : List ContextTurn → Bool
no_turns [] = true
no_turns (t ∷ ts) = false

abbrev pub reversed_onto {ℓ} : {A : Type ℓ} → List A → List A → List A
reversed_onto [] ys = ys
reversed_onto (x ∷ xs) ys = reversed_onto xs (x ∷ ys)

module _ (u : Unicode) where
  -- `summarize_compacted`
  unfoldable pub summarize_compacted :
      Option Text → List Candidate → Settings → Result Fault (Option Text)
  unfolding safe_optional_summary join rendered
  summarize_compacted existing candidates s = do
    summary ← safe_optional_summary u existing
    ok (suffix s.rolling_summary_max_chars (nonempty summary (rendered u candidates)))

  -- The loop over the turns, the newest first, with what remains of the limit after it.
  unfoldable pub select_turns : ℕ → List Turn → Result Fault (List ContextTurn × ℕ)
  unfolding context_turn
  select_turns remaining [] = ok ([], remaining)
  select_turns remaining (t ∷ ts) =
      let rest = (do
        c ← context_turn u t.role (selected remaining t.text) t.ordinal
        (cs, r) ← select_turns (remaining - length (selected remaining t.text)) ts
        ok (c ∷ cs, r)) in
      if remaining == 0 || is_blank (selected remaining t.text) then ok ([], remaining) else rest

  -- The body of the `try` of `project_chat_context`.
  unfoldable pub project_within :
      ℕ → Option Text → List Turn → Option Text → Result Fault (Option Context)
  unfolding select_turns safe_optional_summary conversation_context
  project_within remaining topic turns rolling_summary = do
    (chosen, left) ← select_turns remaining (reversed_onto turns [])
    summary ← safe_optional_summary u rolling_summary
    if is_none topic && no_turns chosen && is_none (projected_summary left summary)
        then ok none
        else (do
          c ←
              conversation_context u (projected_summary left summary) topic
                (reversed_onto chosen [])
          ok (some c))

  -- `project_chat_context`
  unfoldable pub project_chat_context :
      Snapshot → Option Text → Settings → Result Fault (Option Context)
  unfolding project_within
  project_chat_context snapshot rolling_summary s = do
    require (leb s.context_max_chars 1_000 && leb (length snapshot.recent_turns) 4)
        (conversation_error ConversationErrorCode.state_invalid)
    if ltb s.context_max_chars (option_length snapshot.active_topic)
        then ok none
        else state_invalid_on_failure (
            project_within (s.context_max_chars - option_length snapshot.active_topic)
              snapshot.active_topic snapshot.recent_turns rolling_summary)

  -- `_computed_rolling_summary`: a reservation has a compaction plan.
  unfoldable pub computed_rolling_summary : Reservation → Settings → Result Fault (Option Text)
  unfolding summarize_compacted
  computed_rolling_summary r s = summarize_compacted r.snapshot.rolling_summary r.candidates s

  -- `build_chat_request`; the channel leaves the temporal scope of a request at its default.
  unfoldable pub build_chat_request :
      ConversationRequest → Reservation → Settings → Result Fault ChatRequest
  unfolding computed_rolling_summary project_chat_context derive_retrieval_query nonblank_field
  build_chat_request request r s = do
    summary ← computed_rolling_summary r s
    context ← project_chat_context r.snapshot summary s
    query ← derive_retrieval_query u request.text r.snapshot.active_topic
    question ← nonblank_field u 4_000 request.text
    retrieval_query ← nonblank_field u 4_000 query
    ok (record {
      question = question;
      retrieval_query = some retrieval_query;
      conversation_context = context;
      temporal_scope = TemporalScope.no_scope;
    })

  -- `build_state_update`
  unfoldable pub build_state_update :
      Reservation → ConversationRequest → Settings → Result Fault StateUpdate
  unfolding computed_rolling_summary derive_active_topic safe_optional_field
  build_state_update r request s = do
    computed ← computed_rolling_summary r s
    derived ← derive_active_topic u request.text s
    summary ← safe_optional_field u 1_500 computed
    topic ← safe_optional_field u 256 (some derived)
    require (nodup r.compacted && leb (length r.compacted) 32) validation_error
    ok (record {
      expected_state_version = r.expected_state_version;
      rolling_summary = summary;
      active_topic = topic;
      compacted_exchange_ids = r.compacted;
    })
