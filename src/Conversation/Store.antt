-- ===== src/Conversation/Store.antt =====
-- conversation/orm.py and the helpers of conversation/repository.py: the two tables, what may be
-- raised in a transaction and what it becomes. The columns that a completion sets stand in the row as
-- its result, and with them its references (they go with it by cascade). Timestamps that no condition
-- reads are not modelled.
use legal_chatbot_ueb_demo_s.Prelude.{
  ℕ, String, Bool, true, false, not, ◌&&◌, ◌||◌, Option, none, some, List, [], ◌∷◌, map, Text,
  Result, ok, err, leb, length, if◌then◌else◌, ◌==◌, all, codes,
}
use legal_chatbot_ueb_demo_s.Table.{is_some, member}
use legal_chatbot_ueb_demo_s.Retrieval.Roles.{ProvenanceType}
use legal_chatbot_ueb_demo_s.Unicode.{Unicode, normalize_safe_text}
use legal_chatbot_ueb_demo_s.Conversation.Models.{ConversationErrorCode, ExchangeStatus}

pub data ChatOutcome : Type 0 where
  answer clarification refusal : ChatOutcome

pub data ChatReason : Type 0 where
  answer_eligible answer_grounded no_results unsupported_temporal_scope : ChatReason
  invalid_evidence_chain retrieval_failure grounding_failure provider_failure : ChatReason
  invalid_provider_output citation_revalidation_failure : ChatReason

pub data TrustLabel : Type 0 where
  official_legal official_legal_pinned_exception manual_snapshot : TrustLabel

pub data TransportTrustMode : Type 0 where
  strict_tls user_approved_tofu_pinned_exception legacy_unverified : TransportTrustMode

-- `ResolvedCitation`, without its locator, which nothing reads.
pub record Citation : Type 0 where
  pub citation_id : ℕ
  pub retrieval_run_id : ℕ
  pub document_chunk_id : ℕ
  pub document_version_id : ℕ
  pub document_id : ℕ
  pub source_provenance_record_id : ℕ
  pub provenance_type : ProvenanceType
  pub transport_trust_mode : TransportTrustMode
  pub evidence_trust_label : TrustLabel
  pub source_id : Text
  pub external_id : Text
  pub document_number : Option Text
  pub title : Option Text
  pub canonical_url : Option Text

-- `GroundedChatResult`
pub record ChatResult : Type 0 where
  pub outcome : ChatOutcome
  pub reason : ChatReason
  pub answer : Text
  pub retrieval_run_id : Option ℕ
  pub citations : List Citation
  pub provider : Option String
  pub model : Option String
  pub provider_request_id : Option String

-- What an exchange keeps of a result: the columns that a completion sets, and the references, which
-- are identifiers only.
pub record Stored : Type 0 where
  pub outcome : ChatOutcome
  pub reason : ChatReason
  pub answer : Text
  pub retrieval_run_id : Option ℕ
  pub provider : Option String
  pub model : Option String
  pub provider_request_id : Option String
  pub citation_ids : List ℕ
  pub document_ids : List ℕ

-- The identifiers of a list that have not been seen, each once, in their order.
unfoldable pub distinct : List ℕ → List ℕ → List ℕ
distinct seen [] = []
distinct seen (x ∷ xs) =
    let new = distinct (x ∷ seen) xs in
    let old = distinct seen xs in if member x seen then old else x ∷ new

abbrev pub answer_only : ChatOutcome → List ℕ → List ℕ
answer_only ChatOutcome.answer ids = ids
answer_only _ ids = []

-- `_derived_references`: the citations of an answer, and their documents.
abbrev pub stored : ChatResult → Stored
stored r = record {
  outcome = r.outcome;
  reason = r.reason;
  answer = r.answer;
  retrieval_run_id = r.retrieval_run_id;
  provider = r.provider;
  model = r.model;
  provider_request_id = r.provider_request_id;
  citation_ids = answer_only r.outcome (map (λ c. c.citation_id) r.citations);
  document_ids = answer_only r.outcome (distinct [] (map (λ c. c.document_id) r.citations));
}

pub record Exchange : Type 0 where
  pub id : ℕ
  pub conversation_id : ℕ
  pub delivery_key : String
  pub ordinal : ℕ
  pub status : ExchangeStatus
  pub lease_expires_at : Option ℕ
  pub user_text : Text
  pub result : Option Stored
  pub failure_reason : Option String

abbrev pub exchange_key : Exchange → ℕ
exchange_key e = e.id

pub record Conversation : Type 0 where
  pub id : ℕ
  pub state_version : ℕ
  pub rolling_summary : Option Text
  pub active_topic : Option Text
  pub expires_at : ℕ
  pub deleted_at : Option ℕ

abbrev pub conversation_key : Conversation → ℕ
conversation_key c = c.id

-- The two tables, and the retrieval runs that a foreign key of an exchange may name.
pub record Database : Type 0 where
  pub conversations : List Conversation
  pub exchanges : List Exchange
  pub retrieval_runs : List ℕ

pub data Fault : Type 0 where
  conversation_error : ConversationErrorCode → Fault
  validation_error : Fault
  unique_violation : Fault
  check_violation : Fault
  foreign_key_violation : Fault

abbrev pub Tx : Type 0 → Type 0
Tx A = Database → Result Fault (A × Database)

-- `_conversation_error_for_unexpected`
unfoldable pub to_conversation_error : Fault → ConversationErrorCode
to_conversation_error (conversation_error code) = code
to_conversation_error validation_error = ConversationErrorCode.state_invalid
to_conversation_error unique_violation = ConversationErrorCode.persistence_failure
to_conversation_error check_violation = ConversationErrorCode.persistence_failure
to_conversation_error foreign_key_violation = ConversationErrorCode.persistence_failure

-- One transaction, seen from outside the method.
abbrev pub settled :
    {A : Type 0}
    → Database
    → Result Fault (A × Database)
    → Result ConversationErrorCode A × Database
settled db (ok (a, db')) = (ok a, db')
settled db (err f) = (err (to_conversation_error f), db)

abbrev pub is_refusal_reason : ChatReason → Bool
is_refusal_reason ChatReason.answer_eligible = false
is_refusal_reason ChatReason.answer_grounded = false
is_refusal_reason ChatReason.no_results = false
is_refusal_reason _ = true

abbrev pub is_grounded : ChatReason → Bool
is_grounded ChatReason.answer_grounded = true
is_grounded _ = false

abbrev pub is_no_results : ChatReason → Bool
is_no_results ChatReason.no_results = true
is_no_results _ = false

abbrev pub is_retrieval_failure : ChatReason → Bool
is_retrieval_failure ChatReason.retrieval_failure = true
is_retrieval_failure _ = false

abbrev pub is_empty : List ℕ → Bool
is_empty [] = true
is_empty (x ∷ xs) = false

abbrev has_metadata : Stored → Bool
has_metadata r = is_some r.provider || is_some r.model || is_some r.provider_request_id

abbrev has_references : Stored → Bool
has_references r = not (is_empty r.citation_ids && is_empty r.document_ids)

-- The check constraint on the result of a completed exchange.
abbrev stored_shape : ChatOutcome → Stored → Bool
stored_shape ChatOutcome.answer r =
    is_grounded r.reason && is_some r.retrieval_run_id && is_some r.provider && is_some r.model
stored_shape ChatOutcome.clarification r =
    is_no_results r.reason && is_some r.retrieval_run_id && not (has_metadata r)
stored_shape ChatOutcome.refusal r =
    is_refusal_reason r.reason
    && not (has_metadata r)
    && (if is_retrieval_failure r.reason
        then not (is_some r.retrieval_run_id)
        else is_some r.retrieval_run_id)

abbrev at_most_128 : Option String → Bool
at_most_128 none = true
at_most_128 (some value) = leb (length (codes value)) 128

-- The three columns are `String(128)`.
unfoldable pub columns_fit : Stored → Bool
columns_fit r = at_most_128 r.provider && at_most_128 r.model && at_most_128 r.provider_request_id

-- The check constraints on a completed row, and the lengths of its columns.
abbrev pub completed_row : Stored → Bool
completed_row r =
    leb 1 (length r.answer)
    && leb (length r.answer) 4_000
    && stored_shape r.outcome r
    && columns_fit r

-- The foreign key on the retrieval run of a completed row.
abbrev pub known_run : Option ℕ → Database → Bool
known_run none db = true
known_run (some run) db = member run db.retrieval_runs

-- No reference of a kind is there twice: a unique constraint, and a validator of the stored exchange.
unfoldable pub distinct_references : Stored → Bool
unfolding distinct
distinct_references r =
    length (distinct [] r.citation_ids) == length r.citation_ids
    && length (distinct [] r.document_ids) == length r.document_ids

-- At most `REFERENCE_LIMIT_PER_KIND` of a kind.
abbrev pub references_fit : Stored → Bool
references_fit r = leb (length r.citation_ids) 6 && leb (length r.document_ids) 6

abbrev has_character : Option String → Bool
has_character none = true
has_character (some value) = leb 1 (length (codes value))

abbrev printable : Option String → Bool
printable none = true
printable (some value) = all (λ c. leb 33 c && leb c 126) (codes value)

-- The validators of the metadata of a stored exchange.
unfoldable pub valid_metadata : Stored → Bool
unfolding columns_fit
valid_metadata r =
    columns_fit r
    && has_character r.provider
    && has_character r.model
    && has_character r.provider_request_id
    && printable r.provider_request_id

-- The outcomes of `validate_completed_exchange_shape`.
abbrev completed_shape : ChatOutcome → Stored → Bool
completed_shape ChatOutcome.answer r =
    is_grounded r.reason
    && is_some r.retrieval_run_id
    && not (is_empty r.citation_ids)
    && is_some r.provider
    && is_some r.model
completed_shape ChatOutcome.clarification r =
    is_no_results r.reason
    && is_some r.retrieval_run_id
    && not (has_references r)
    && not (has_metadata r)
completed_shape ChatOutcome.refusal r =
    is_refusal_reason r.reason
    && not (has_references r)
    && not (has_metadata r)
    && (is_retrieval_failure r.reason || is_some r.retrieval_run_id)

-- `_persisted_exchange`: `PersistedConversationExchange` of a completed row, with its validators. The
-- references of a kind are in the order of their ordinals, which are their positions, so the
-- validators on the order and on the ordinals hold by construction.
unfoldable pub persisted_exchange : Unicode → Stored → Result Fault Stored
unfolding valid_metadata distinct_references
persisted_exchange u r = elim (normalize_safe_text u r.answer) [
  | none ↦ err validation_error
  | some t ↦
      if leb (length t) 4_000
        && valid_metadata r
        && distinct_references r
        && references_fit r
        && completed_shape r.outcome r
      then ok (record r { answer = t })
      else err validation_error
]
