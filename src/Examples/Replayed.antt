-- ===== src/Examples/Replayed.antt =====
-- The conversation over the grounded chat, at one delivery.
use legal_chatbot_ueb_demo_s.Conversation.Completion.{complete, complete_tx}
use legal_chatbot_ueb_demo_s.Conversation.Service.{
  after_reserve, chat_for, complete_with, process, Reply, Answered, respond,
}
use legal_chatbot_ueb_demo_s.Conversation.Policy.{
  build_chat_request, build_state_update, computed_rolling_summary, project_within, select_turns,
  summarize_compacted, project_chat_context,
}
use legal_chatbot_ueb_demo_s.Conversation.Policy.Contracts.{conversation_context, nonblank_field}
use legal_chatbot_ueb_demo_s.Conversation.Policy.Labels.{
  derive_active_topic, derive_retrieval_query, join, rendered, safe_optional_summary,
  normalize_bounded, decimal_onto,
}
use legal_chatbot_ueb_demo_s.Conversation.Results.{
  fixed_refusal, grounded_result, refusal_text, result_route,
}
use legal_chatbot_ueb_demo_s.Prelude.{ℕ, ◌≡◌, refl, ok, true}
use legal_chatbot_ueb_demo_s.Unicode.{normalize_safe_text, strip_start, strip_end}
use legal_chatbot_ueb_demo_s.Table.{find, first, update}
use legal_chatbot_ueb_demo_s.Channels.Models.{aware}
use legal_chatbot_ueb_demo_s.Conversation.Store.{Database, persisted_exchange}
use legal_chatbot_ueb_demo_s.Conversation.State.{
  conversation_snapshot, snapshot_bounds, kind_count, safe_optional_field,
}
use legal_chatbot_ueb_demo_s.Conversation.Snapshots.{
  planned_candidates, compaction_candidates, snapshot_for_conversation, turns_of_all,
  all_reference_rows, collect_references,
}
use legal_chatbot_ueb_demo_s.Conversation.Queries.{
  locked_active_conversation, abandon_stale, maximum_ordinal, terminal_rows, compaction_plan,
  insert_ordered, compacted_rows, completed_rows, require_active_conversation,
}
use legal_chatbot_ueb_demo_s.Conversation.Exchanges.{reserve}
use legal_chatbot_ueb_demo_s.Examples.Conversations.{
  constant_key, some_settings, no_exchanges, another_request,
}
use legal_chatbot_ueb_demo_s.Chat.Words.{contains_text}
use legal_chatbot_ueb_demo_s.Chat.Retrieved.{
  valid_retrieval, retrieval_request, stripped_field, stripped_optional, grounding_excerpts,
  excerpts_length, grounding_evidence, labelled,
}
use legal_chatbot_ueb_demo_s.Chat.Planner.{plan_retrieval, plan_within}
use legal_chatbot_ueb_demo_s.Chat.Prompt.{
  build_grounded_prompt, with_context, question_json, evidence_json, evidence_items, seal,
  seal_char, escaped, escape_char,
}
use legal_chatbot_ueb_demo_s.Chat.Policy.{
  effective_temporal_scope, apply_temporal_guard, scope_of, retrieval_policy_decision,
}
use legal_chatbot_ueb_demo_s.Chat.Grounding.{
  validate_retrieval_result, validate_grounding_evidence, same_citation_identity,
  reresolve_citations, validate_generation_result, utf8_length, classify_provider_answer_safety,
  provider_answer, validate_provider_answer,
}
use legal_chatbot_ueb_demo_s.Chat.Service.{
  generation_for, retrieval_of, retrieved, evidence_for, grounded, answered_by, answer_with,
  read_output, generated, eligible_answer, routed, retrieval_for, answer_request,
}
use legal_chatbot_ueb_demo_s.Examples.System.{ascii}
use legal_chatbot_ueb_demo_s.Examples.Answers.{
  ascii_closed, grounded_answer, first_answer, conversation_after,
}
use legal_chatbot_ueb_demo_s.Chat.Service.Replayed.{chat_port, chat_respond_again}
use legal_chatbot_ueb_demo_s.Examples.Grounded.{ascii_texts, no_patterns, chat_settings, some_ports}

abbrev over_chat : ℕ → Database → Reply Answered × Database
over_chat t db =
    respond ascii some_ports.resolve constant_key some_settings
      (chat_port ascii no_patterns chat_settings 1_000 some_ports) (λ d. d) 10 another_request
      (aware t) db

-- The grounded chat answers, and the delivery is answered once more after ten seconds.
chat_respond_again_example :
    (over_chat 17_000_000 (over_chat 7_000_000 no_exchanges).1).0
    ≡ ok (record first_answer { duplicate = true })
unfolding respond after_reserve process chat_for build_chat_request build_state_update complete_with
    complete complete_tx grounded_result fixed_refusal refusal_text result_route
    computed_rolling_summary project_chat_context project_within select_turns derive_retrieval_query
    derive_active_topic nonblank_field safe_optional_field summarize_compacted safe_optional_summary
    normalize_bounded reserve locked_active_conversation persisted_exchange find first update
    abandon_stale maximum_ordinal terminal_rows compaction_plan compacted_rows insert_ordered
    normalize_safe_text strip_start strip_end planned_candidates compaction_candidates
    snapshot_for_conversation completed_rows require_active_conversation conversation_snapshot
    snapshot_bounds kind_count turns_of_all all_reference_rows collect_references
    conversation_context join rendered answer_request retrieval_for apply_temporal_guard
    effective_temporal_scope scope_of contains_text plan_retrieval plan_within retrieved
    retrieval_of retrieval_request stripped_field stripped_optional validate_retrieval_result
    valid_retrieval retrieval_policy_decision routed eligible_answer grounded evidence_for
    validate_grounding_evidence grounding_evidence grounding_excerpts excerpts_length labelled
    generated generation_for validate_generation_result read_output answered_by utf8_length
    validate_provider_answer provider_answer classify_provider_answer_safety answer_with
    reresolve_citations same_citation_identity build_grounded_prompt with_context question_json
    evidence_json evidence_items seal seal_char escaped escape_char decimal_onto chat_port
chat_respond_again_example =
    chat_respond_again ascii ascii_closed ascii_texts no_patterns chat_settings 1_000 some_ports
      constant_key some_settings 10 10 another_request 7_000_000 17_000_000 no_exchanges
      (over_chat 7_000_000 no_exchanges).1 first_answer grounded_answer conversation_after tt refl
      refl refl refl
