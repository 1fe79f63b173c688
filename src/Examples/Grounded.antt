-- ===== src/Examples/Grounded.antt =====
-- The theorems on chat/service.py, at one request.
use legal_chatbot_ueb_demo_s.Prelude.{
  ℕ, ◌≡◌, refl, none, some, List, [], ◌∷◌, Text, Result, ok, err, arith, false,
}
use legal_chatbot_ueb_demo_s.Unicode.{strip_start, strip_end}
use legal_chatbot_ueb_demo_s.Conversation.Store.{ChatReason, Fault}
use legal_chatbot_ueb_demo_s.Conversation.Policy.Contracts.{
  ChatRequest, TemporalScope, nonblank_field,
}
use legal_chatbot_ueb_demo_s.Conversation.Results.{refusal_text, grounded_result, result_route}
use legal_chatbot_ueb_demo_s.Conversation.Service.{Reply, Raised}
use legal_chatbot_ueb_demo_s.Chat.Words.{Patterns, contains_text}
use legal_chatbot_ueb_demo_s.Chat.Retrieved.{
  RetrievalResult, RetrievalDecision, GroundingEvidence, valid_retrieval, retrieval_request,
  stripped_field, stripped_optional, grounding_excerpts, excerpts_length, grounding_evidence,
  labelled,
}
use legal_chatbot_ueb_demo_s.Chat.Planner.{
  ChatSettings, QueryPlannerResult, plan_retrieval, plan_within,
}
use legal_chatbot_ueb_demo_s.Chat.Prompt.{
  build_grounded_prompt, with_context, prompt_of, question_json, evidence_json, evidence_items,
  seal, seal_char, escaped, escape_char,
}
use legal_chatbot_ueb_demo_s.Chat.Prompt.Sections.{IsPrompt, build_grounded_prompt-IsPrompt}
use legal_chatbot_ueb_demo_s.Conversation.Policy.Labels.{join, decimal_onto}
use legal_chatbot_ueb_demo_s.Chat.Policy.{
  effective_temporal_scope, apply_temporal_guard, scope_of, retrieval_policy_decision,
}
use legal_chatbot_ueb_demo_s.Chat.Grounding.{
  Generation, validate_retrieval_result, validate_grounding_evidence, same_citation_identity,
  reresolve_citations, validate_generation_result, utf8_length, classify_provider_answer_safety,
  provider_answer, validate_provider_answer,
}
use legal_chatbot_ueb_demo_s.Chat.Service.{
  Ports, generation_for, retrieval_of, retrieved, evidence_for, grounded, answered_by, answer_with,
  read_output, generated, eligible_answer, routed, retrieval_for, answer_request,
}
use legal_chatbot_ueb_demo_s.Chat.Service.Returns.{FixedTexts}
use legal_chatbot_ueb_demo_s.Chat.Service.Closed.{answer_request-Supported}
use legal_chatbot_ueb_demo_s.Chat.Service.Supported.{Supported}
use legal_chatbot_ueb_demo_s.Chat.Service.Asked.{provider_not_asked, planner_not_asked}
use legal_chatbot_ueb_demo_s.Examples.System.{ascii}
use legal_chatbot_ueb_demo_s.Examples.Conversations.{cited}
use legal_chatbot_ueb_demo_s.Examples.Answers.{ascii_closed, grounded_answer}

abbrev accepted_text : Text → Result Fault Text
accepted_text t = ok t

accepted :
    (x t : Text)
    → nonblank_field ascii 4_000 x ≡ ok x
    → accepted_text x ≡ accepted_text t
    → nonblank_field ascii 4_000 t ≡ ok t
accepted x t h e = ground (arith, h)

refusals_accepted :
    (reason : ChatReason) (t : Text)
    → refusal_text reason ≡ ok t
    → nonblank_field ascii 4_000 t ≡ ok t
unfolding refusal_text nonblank_field strip_start strip_end
refusals_accepted ChatReason.answer_eligible t h = absurd (ground arith)
refusals_accepted ChatReason.answer_grounded t h = absurd (ground arith)
refusals_accepted ChatReason.no_results t h = absurd (ground arith)
refusals_accepted ChatReason.unsupported_temporal_scope t h = accepted _ t refl h
refusals_accepted ChatReason.invalid_evidence_chain t h = accepted _ t refl h
refusals_accepted ChatReason.retrieval_failure t h = accepted _ t refl h
refusals_accepted ChatReason.grounding_failure t h = accepted _ t refl h
refusals_accepted ChatReason.provider_failure t h = accepted _ t refl h
refusals_accepted ChatReason.invalid_provider_output t h = accepted _ t refl h
refusals_accepted ChatReason.citation_revalidation_failure t h = accepted _ t refl h

pub ascii_texts : FixedTexts ascii
unfolding nonblank_field strip_start strip_end
ascii_texts = record { refusals = refusals_accepted; clarification = refl }

abbrev pub no_patterns : Patterns
no_patterns = record {
  casefold = λ t. t;
  url_scheme = λ t. false;
  canonical_uuid = λ t. false;
  evidence_token = λ t. false;
  unsafe_item = λ t. false;
  protected_identities = λ t. [];
}

abbrev pub chat_settings : ChatSettings
chat_settings = record {
  question_max_chars = 4_000;
  max_citations = 3;
  excerpt_max_chars = 2_000;
  total_evidence_max_chars = 6_000;
  prompt_max_chars = 12_000;
  conversation_context_max_chars = 1_000;
  max_output_tokens = 384;
  answer_max_chars = 4_000;
  retrieval_planner_enabled = false;
  retrieval_planner_max_input_chars = 900;
  retrieval_planner_max_expansion_terms = 4;
  retrieval_planner_max_phrases = 2;
  retrieval_planner_max_query_count = 2;
}

abbrev one_found : RetrievalResult
one_found = record {
  retrieval_run_id = 3;
  candidates = record { citation_id = 4; document_chunk_id = 6; rank = 1 } ∷ [];
  candidate_count = 1;
  citation_count = 1;
  decision = RetrievalDecision.evidence_available;
}

abbrev nothing_found : RetrievalResult
nothing_found = record {
  retrieval_run_id = 3;
  candidates = [];
  candidate_count = 0;
  citation_count = 0;
  decision = RetrievalDecision.no_results;
}

abbrev never_loads : ℕ → List ℕ → Reply GroundingEvidence
never_loads run ids = err Raised.other

abbrev never_generates : Text → ℕ → Reply Generation
never_generates prompt tokens = err Raised.other

abbrev pub some_ports : Ports
some_ports = record {
  planner = none;
  anchors = none;
  retrieve = λ q. ok one_found;
  load = λ run ids. ok (record {
    retrieval_run_id = 3;
    excerpts = record { citation = cited; text = b'd' ∷ [] } ∷ [];
  });
  generate = λ prompt tokens.
      ok (record { text = b'{' ∷ []; provider = "p"; model = "m"; request_id = none });
  parse = λ text. ok (b'o' ∷ b'k' ∷ []);
  resolve = λ id run. ok cited;
}

abbrev some_question : ChatRequest
some_question = record {
  question = b'h' ∷ b'i' ∷ [];
  retrieval_query = none;
  conversation_context = none;
  temporal_scope = TemporalScope.no_scope;
}

answer_request-Supported_example :
    (r : RetrievalResult) × (retrieval_for ascii no_patterns chat_settings 1_000 some_ports
        some_question
      ≡ ok r)
    × Supported some_ports.resolve r grounded_answer
unfolding answer_request retrieval_for apply_temporal_guard effective_temporal_scope scope_of
    contains_text plan_retrieval plan_within retrieved retrieval_of retrieval_request stripped_field
    stripped_optional strip_start strip_end validate_retrieval_result valid_retrieval
    retrieval_policy_decision routed eligible_answer grounded evidence_for
    validate_grounding_evidence grounding_evidence grounding_excerpts excerpts_length labelled
    nonblank_field generated generation_for validate_generation_result read_output answered_by
    utf8_length validate_provider_answer provider_answer classify_provider_answer_safety answer_with
    reresolve_citations same_citation_identity grounded_result result_route
answer_request-Supported_example =
    answer_request-Supported ascii ascii_closed ascii_texts no_patterns chat_settings 1_000
      some_ports some_question grounded_answer refl refl

-- The retrieval finds nothing.
provider_not_asked_example :
    answer_request ascii no_patterns chat_settings 1_000
      (record some_ports {
        retrieve = λ q. ok nothing_found;
        load = never_loads;
        generate = never_generates;
      })
      some_question
    ≡ answer_request ascii no_patterns chat_settings 1_000
        (record some_ports { retrieve = λ q. ok nothing_found })
        some_question
unfolding answer_request retrieval_for apply_temporal_guard effective_temporal_scope scope_of
    contains_text plan_retrieval plan_within retrieved retrieval_of retrieval_request stripped_field
    stripped_optional strip_start strip_end validate_retrieval_result valid_retrieval
provider_not_asked_example =
    provider_not_asked ascii no_patterns chat_settings 1_000
      (record some_ports { retrieve = λ q. ok nothing_found }) some_question nothing_found
      never_loads never_generates refl (λ e. absurd (ground (arith, e)))

abbrev asks_planner : Text → Reply QueryPlannerResult
asks_planner question = err Raised.other

-- The request asks for the law at some time.
planner_not_asked_example :
    answer_request ascii no_patterns chat_settings 1_000
      (record some_ports { planner = some asks_planner })
      (record some_question { temporal_scope = TemporalScope.as_of })
    ≡ answer_request ascii no_patterns chat_settings 1_000 some_ports
        (record some_question { temporal_scope = TemporalScope.as_of })
unfolding effective_temporal_scope
planner_not_asked_example =
    planner_not_asked ascii no_patterns chat_settings 1_000 some_ports
      (record some_question { temporal_scope = TemporalScope.as_of }) (some asks_planner) none
      (λ e. absurd (ground (arith, e)))

abbrev marked : ChatRequest
marked = record some_question { question = b'<' ∷ 10 ∷ b'"' ∷ [] }

abbrev evidence : GroundingEvidence
evidence = record {
  retrieval_run_id = 3;
  excerpts = record { citation = cited; text = b'd' ∷ [] } ∷ [];
}

abbrev built : Text
built =
    with_context chat_settings none
      (prompt_of (question_json marked.question) (evidence_json evidence.excerpts))

-- A question with a mark, a line break and a quote.
build_grounded_prompt-IsPrompt_example : IsPrompt chat_settings marked evidence built
unfolding build_grounded_prompt with_context question_json evidence_json evidence_items seal
    seal_char escaped escape_char join excerpts_length decimal_onto
build_grounded_prompt-IsPrompt_example =
    build_grounded_prompt-IsPrompt marked evidence chat_settings built refl
