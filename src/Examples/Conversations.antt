-- ===== src/Examples/Conversations.antt =====
-- The theorems on conversation/repository.py, at a conversation with an exchange that is processed.
use legal_chatbot_ueb_demo_s.Retrieval.Roles.{ProvenanceType}
use legal_chatbot_ueb_demo_s.Conversation.State.{Snapshot}
use legal_chatbot_ueb_demo_s.Conversation.Models.{
  Settings, ConversationErrorCode, ConversationRequest, ExchangeStatus,
}
use legal_chatbot_ueb_demo_s.Prelude.{◌≤◌, ◌≡◌, refl, none, some, String, List, [], ◌∷◌, Text, err}
use legal_chatbot_ueb_demo_s.Unicode.{strip_start, strip_end}
use legal_chatbot_ueb_demo_s.Channels.Models.{aware}
use legal_chatbot_ueb_demo_s.Conversation.Store.{
  Conversation, ChatOutcome, ChatReason, ChatResult, Citation, TrustLabel, TransportTrustMode,
  Exchange, Database,
}
use legal_chatbot_ueb_demo_s.Conversation.Exchanges.{Reservation}
use legal_chatbot_ueb_demo_s.Conversation.Completion.{StateUpdate, complete}
use legal_chatbot_ueb_demo_s.Conversation.Completion.Completing.{CompletesOr, complete-Completes}
use legal_chatbot_ueb_demo_s.Conversation.Completion.Answers.{multiline_answer_lost}
use legal_chatbot_ueb_demo_s.Conversation.Calls.{Call, reserving, completing}
use legal_chatbot_ueb_demo_s.Conversation.Calls.Once.{completions, completes_once}
use legal_chatbot_ueb_demo_s.Examples.System.{ascii}

abbrev pub constant_key : Text → String
constant_key text = "k2"

abbrev pub some_settings : Settings
some_settings = record {
  recent_completed_turn_limit = 4;
  rolling_summary_max_chars = 1_500;
  active_topic_max_chars = 256;
  context_max_chars = 1_000;
  reference_limit = 6;
  retention_seconds = 604_800;
  processing_lease_seconds = 120;
  retained_exchange_limit = 32;
}

abbrev processed : Exchange
processed = record {
  id = 9;
  conversation_id = 7;
  delivery_key = "k1";
  ordinal = 1;
  status = ExchangeStatus.processing;
  lease_expires_at = some 9_000_000;
  user_text = b'h' ∷ b'i' ∷ [];
  result = none;
  failure_reason = none;
}

abbrev pub some_conversation : Conversation
some_conversation = record {
  id = 7;
  state_version = 0;
  rolling_summary = none;
  active_topic = none;
  expires_at = 99_000_000;
  deleted_at = none;
}

abbrev conversations : Database
conversations = record {
  conversations = some_conversation ∷ [];
  exchanges = processed ∷ [];
  retrieval_runs = 3 ∷ [];
}

abbrev empty_snapshot : Snapshot
empty_snapshot = record {
  state_version = 0;
  rolling_summary = none;
  active_topic = none;
  recent_turns = [];
  references = [];
}

abbrev reservation : Reservation
reservation = record {
  conversation_id = 7;
  exchange_id = 9;
  ordinal = 1;
  expected_state_version = 0;
  snapshot = empty_snapshot;
  compacted = [];
  candidates = [];
}

abbrev pub refused : ChatResult
refused = record {
  outcome = ChatOutcome.refusal;
  reason = ChatReason.retrieval_failure;
  answer = b'n' ∷ b'o' ∷ [];
  retrieval_run_id = none;
  citations = [];
  provider = none;
  model = none;
  provider_request_id = none;
}

abbrev state_update : StateUpdate
state_update = record {
  expected_state_version = 0;
  rolling_summary = none;
  active_topic = some (b'h' ∷ b'i' ∷ []);
  compacted_exchange_ids = [];
}

abbrev pub another_request : ConversationRequest
another_request = record { conversation_id = 7; delivery_id = b'd' ∷ []; text = b'y' ∷ b'o' ∷ [] }

-- Two services complete the same reservation, then another delivery is reserved.
abbrev some_calls : List Call
some_calls =
    completing reservation refused state_update (aware 6_000_000)
    ∷ completing reservation refused state_update (aware 6_000_001)
    ∷ reserving 10 another_request (aware 7_000_000)
    ∷ []

completes_once_example :
    completions ascii constant_key some_settings reservation some_calls conversations ≤ 1
completes_once_example =
    completes_once ascii constant_key some_settings reservation some_calls conversations

complete-Completes_example :
    CompletesOr ascii 604_800 32 reservation refused state_update
      (aware 6_000_000)
      conversations
      (complete ascii 604_800 32 reservation refused state_update (aware 6_000_000) conversations)
complete-Completes_example =
    complete-Completes ascii 604_800 32 reservation refused state_update (aware 6_000_000)
      conversations

abbrev pub cited : Citation
cited = record {
  citation_id = 4;
  retrieval_run_id = 3;
  document_chunk_id = 6;
  document_version_id = 2;
  document_id = 5;
  source_provenance_record_id = 1;
  provenance_type = ProvenanceType.source_fetch;
  transport_trust_mode = TransportTrustMode.strict_tls;
  evidence_trust_label = TrustLabel.official_legal;
  source_id = b's' ∷ [];
  external_id = b'x' ∷ [];
  document_number = none;
  title = none;
  canonical_url = none;
}

abbrev two_lines_answered : ChatResult
two_lines_answered = record {
  outcome = ChatOutcome.answer;
  reason = ChatReason.answer_grounded;
  answer = b'a' ∷ 10 ∷ b'b' ∷ [];
  retrieval_run_id = some 3;
  citations = cited ∷ [];
  provider = some "p";
  model = some "m";
  provider_request_id = none;
}

multiline_answer_lost_example :
    (e : ConversationErrorCode) × (complete ascii 604_800 32 reservation two_lines_answered
        state_update
        (aware 6_000_000)
        conversations
      ≡ (err e, conversations))
unfolding strip_start strip_end
multiline_answer_lost_example =
    multiline_answer_lost ascii 604_800 32 reservation two_lines_answered state_update
      (aware 6_000_000) conversations refl refl refl

abbrev pub no_exchanges : Database
no_exchanges = record conversations { exchanges = [] }

-- The first exchange is reserved and completed ten seconds later.
abbrev new_reservation : Reservation
new_reservation = record {
  conversation_id = 7;
  exchange_id = 10;
  ordinal = 1;
  expected_state_version = 0;
  snapshot = empty_snapshot;
  compacted = [];
  candidates = [];
}
