-- ===== src/Examples/Answers.antt =====
-- The theorems on conversation/policy.py and conversation/service.py, at one conversation.
use legal_chatbot_ueb_demo_s.Conversation.Completion.{complete, complete_tx}
use legal_chatbot_ueb_demo_s.Conversation.Service.{
  after_reserve, chat_for, complete_with, process, Reply, Answered, result_of, respond,
}
use legal_chatbot_ueb_demo_s.Conversation.Policy.{
  build_chat_request, build_state_update, computed_rolling_summary, project_within, select_turns,
  summarize_compacted, project_chat_context,
}
use legal_chatbot_ueb_demo_s.Conversation.Policy.Contracts.{
  conversation_context, nonblank_field, ChatRequest, Context,
}
use legal_chatbot_ueb_demo_s.Conversation.Policy.Labels.{
  derive_active_topic, derive_retrieval_query, join, rendered, safe_optional_summary,
  normalize_bounded,
}
use legal_chatbot_ueb_demo_s.Conversation.Results.{
  fixed_refusal, grounded_result, refusal_text, result_route,
}
use legal_chatbot_ueb_demo_s.Prelude.{
  ℕ, ◌≡◌, refl, none, some, Option, [], ◌∷◌, ok, arith, true, false,
}
use legal_chatbot_ueb_demo_s.Unicode.{normalize_safe_text, strip_start, strip_end}
use legal_chatbot_ueb_demo_s.Unicode.Substrings.{ClosedUnderSubstring}
use legal_chatbot_ueb_demo_s.Table.{find, first, update}
use legal_chatbot_ueb_demo_s.Channels.Models.{aware}
use legal_chatbot_ueb_demo_s.Conversation.Models.{ExchangeStatus}
use legal_chatbot_ueb_demo_s.Conversation.Store.{
  Conversation, ChatOutcome, ChatReason, ChatResult, Citation, Database, Exchange, stored,
  persisted_exchange,
}
use legal_chatbot_ueb_demo_s.Conversation.State.{
  Snapshot, TurnRole, conversation_snapshot, snapshot_bounds, kind_count, safe_field,
  safe_optional_field, conversation_turn,
}
use legal_chatbot_ueb_demo_s.Conversation.Snapshots.{
  planned_candidates, compaction_candidates, snapshot_for_conversation, turns_of, turns_of_all,
  all_reference_rows, collect_references, reference_rows,
}
use legal_chatbot_ueb_demo_s.Conversation.Queries.{
  locked_active_conversation, abandon_stale, maximum_ordinal, terminal_rows, compaction_plan,
  insert_ordered, compacted_rows, completed_rows, require_active_conversation,
}
use legal_chatbot_ueb_demo_s.Conversation.Exchanges.{reserve}
use legal_chatbot_ueb_demo_s.Conversation.Projection.{Projects, project_fits}
use legal_chatbot_ueb_demo_s.Conversation.Service.Idempotence.{respond_again}
use legal_chatbot_ueb_demo_s.Examples.System.{ascii}
use legal_chatbot_ueb_demo_s.Examples.Conversations.{
  constant_key, some_settings, some_conversation, no_exchanges, another_request, cited, refused,
}

pub ascii_closed : ClosedUnderSubstring ascii
ascii_closed = record { nfc_nfc = λ t. refl; nfc-take = λ n t h. refl; nfc-drop = λ n t h. refl }

abbrev answered_exchange : Exchange
answered_exchange = record {
  id = 8;
  conversation_id = 7;
  delivery_key = "k0";
  ordinal = 1;
  status = ExchangeStatus.completed;
  lease_expires_at = none;
  user_text = b'h' ∷ b'i' ∷ [];
  result = some (stored refused);
  failure_reason = none;
}

abbrev some_snapshot : Snapshot
some_snapshot = record {
  state_version = 0;
  rolling_summary = none;
  active_topic = some (b'h' ∷ []);
  recent_turns =
      record {
        ordinal = 1;
        role = TurnRole.user;
        text = b'h' ∷ b'i' ∷ [];
        outcome = none;
        reason = none;
      }
      ∷ record {
        ordinal = 2;
        role = TurnRole.assistant;
        text = b'n' ∷ b'o' ∷ [];
        outcome = some ChatOutcome.refusal;
        reason = some ChatReason.retrieval_failure;
      }
      ∷ [];
  references = [];
}

-- A topic and two turns.
project_fits_example :
    (c : Option Context) × (project_chat_context ascii some_snapshot none some_settings ≡ ok c)
    × Projects ascii ascii_closed 1_000 (some (b'h' ∷ [])) c
unfolding snapshot_for_conversation completed_rows insert_ordered turns_of_all turns_of
    conversation_turn safe_field safe_optional_field conversation_snapshot snapshot_bounds
    kind_count all_reference_rows reference_rows collect_references require_active_conversation
    normalize_safe_text strip_start strip_end safe_optional_summary
project_fits_example =
    project_fits ascii ascii_closed some_settings
      (record some_conversation { active_topic = some (b'h' ∷ []) }) 5 (answered_exchange ∷ [])
      some_snapshot none none refl (omega arith) refl

-- The chat answers with a citation, which resolves.
abbrev pub grounded_answer : ChatResult
grounded_answer = record {
  outcome = ChatOutcome.answer;
  reason = ChatReason.answer_grounded;
  answer = b'o' ∷ b'k' ∷ [];
  retrieval_run_id = some 3;
  citations = cited ∷ [];
  provider = some "p";
  model = some "m";
  provider_request_id = none;
}

abbrev knows : ℕ → ℕ → Reply Citation
knows id run = ok cited

abbrev answers : ChatRequest → Reply ChatResult
answers q = ok grounded_answer

abbrev pub first_answer : Answered
first_answer = result_of 7 10 ExchangeStatus.completed false (some grounded_answer)

abbrev after_first : Database
after_first =
    (respond ascii knows constant_key some_settings answers (λ d. d) 10 another_request
      (aware 7_000_000) no_exchanges).1

abbrev pub conversation_after : Conversation
conversation_after = record some_conversation {
  state_version = 1;
  active_topic = some (b'y' ∷ b'o' ∷ []);
  expires_at = 604_807_000_000;
}

-- The delivery is answered after ten seconds once more.
respond_again_example :
    (respond ascii knows constant_key some_settings answers
      (λ d. d)
      11
      another_request
      (aware 17_000_000)
      after_first).0
    ≡ ok (record first_answer { duplicate = true })
unfolding respond after_reserve process chat_for build_chat_request build_state_update complete_with
    complete complete_tx grounded_result fixed_refusal refusal_text result_route
    computed_rolling_summary project_chat_context project_within select_turns derive_retrieval_query
    derive_active_topic nonblank_field safe_optional_field summarize_compacted safe_optional_summary
    normalize_bounded reserve locked_active_conversation persisted_exchange find first update
    abandon_stale maximum_ordinal terminal_rows compaction_plan compacted_rows insert_ordered
    normalize_safe_text strip_start strip_end planned_candidates compaction_candidates
    snapshot_for_conversation completed_rows require_active_conversation conversation_snapshot
    snapshot_bounds kind_count turns_of_all all_reference_rows collect_references
    conversation_context join rendered
respond_again_example =
    respond_again ascii ascii_closed knows constant_key some_settings answers 10 11 another_request
      7_000_000 17_000_000 no_exchanges after_first first_answer grounded_answer conversation_after
      tt refl refl refl (refl, tt) refl
