-- ===== src/Chat/Grounding.antt =====
-- The checks of chat/service.py on what its ports return, and the contract `ProviderAnswer` of
-- chat/models.py with its safety classes.
use legal_chatbot_ueb_demo_s.Prelude.{
  ℕ, Bool, true, false, not, ◌&&◌, ◌||◌, Option, none, some, List, [], ◌∷◌, ltb, leb, ◌==◌, ◌+◌,
  if◌then◌else◌, length, all, String, Text, codes, Result, ok, err, ◌>>=◌, ◌>>◌, require,
}
use legal_chatbot_ueb_demo_s.Table.{is_some}
use legal_chatbot_ueb_demo_s.Unicode.{Unicode}
use legal_chatbot_ueb_demo_s.Conversation.Store.{
  Citation, TransportTrustMode, TrustLabel, Fault, validation_error,
}
use legal_chatbot_ueb_demo_s.Conversation.Completion.{same_ids}
use legal_chatbot_ueb_demo_s.Conversation.Service.{Reply, heard}
use legal_chatbot_ueb_demo_s.Conversation.Policy.Contracts.{nonblank_field}
use legal_chatbot_ueb_demo_s.Chat.Words.{Patterns, contains_text}
use legal_chatbot_ueb_demo_s.Chat.Retrieved.{
  RetrievalCandidate, RetrievalResult, candidate_ids, candidate_chunks, valid_retrieval,
  valid_citation, labelled, GroundingExcerpt, GroundingEvidence, excerpt_ids, excerpt_chunks,
  grounding_evidence,
}
use legal_chatbot_ueb_demo_s.Chat.Planner.{ChatSettings}

-- `_validate_retrieval_result`
unfoldable pub validate_retrieval_result :
    ChatSettings → RetrievalResult → Result Fault RetrievalResult
unfolding valid_retrieval
validate_retrieval_result s r = do
  require (valid_retrieval r) validation_error
  require (leb r.candidate_count s.max_citations) validation_error
  ok r

-- `_validate_grounding_evidence`
unfoldable pub validate_grounding_evidence :
    Unicode → GroundingEvidence → RetrievalResult → Result Fault GroundingEvidence
unfolding grounding_evidence
validate_grounding_evidence u value r = do
  g ← grounding_evidence u value
  require
      (g.retrieval_run_id == r.retrieval_run_id
        && same_ids (excerpt_ids g.excerpts) (candidate_ids r.candidates)
        && same_ids (excerpt_chunks g.excerpts) (candidate_chunks r.candidates))
      validation_error
  ok g

abbrev same_transport : TransportTrustMode → TransportTrustMode → Bool
same_transport TransportTrustMode.strict_tls TransportTrustMode.strict_tls = true
same_transport TransportTrustMode.user_approved_tofu_pinned_exception
      TransportTrustMode.user_approved_tofu_pinned_exception =
    true
same_transport TransportTrustMode.legacy_unverified TransportTrustMode.legacy_unverified = true
same_transport _ _ = false

abbrev same_label : TrustLabel → TrustLabel → Bool
same_label TrustLabel.official_legal TrustLabel.official_legal = true
same_label TrustLabel.official_legal_pinned_exception TrustLabel.official_legal_pinned_exception =
    true
same_label TrustLabel.manual_snapshot TrustLabel.manual_snapshot = true
same_label _ _ = false

-- `_same_citation_identity`
unfoldable pub same_citation_identity : Citation → Citation → Bool
same_citation_identity a b =
    a.citation_id == b.citation_id
    && a.retrieval_run_id == b.retrieval_run_id
    && a.document_chunk_id == b.document_chunk_id
    && a.document_version_id == b.document_version_id
    && a.document_id == b.document_id
    && a.source_provenance_record_id == b.source_provenance_record_id
    && same_transport a.transport_trust_mode b.transport_trust_mode
    && same_label a.evidence_trust_label b.evidence_trust_label

-- `_reresolve_citations`; `zip` is strict.
unfoldable pub reresolve_citations :
    (ℕ → ℕ → Reply Citation)
    → ℕ
    → List RetrievalCandidate
    → List GroundingExcerpt
    → Result Fault (List Citation)
unfolding same_citation_identity labelled
reresolve_citations resolver run [] [] = ok []
reresolve_citations resolver run (c ∷ cs) (e ∷ es) = do
  citation ← heard (resolver c.citation_id run)
  require (valid_citation citation) validation_error
  require (same_citation_identity citation e.citation) validation_error
  rest ← reresolve_citations resolver run cs es
  ok (citation ∷ rest)
reresolve_citations resolver run _ _ = err validation_error

-- `GenerationResult`, without its duration; its names are not empty.
pub record Generation : Type 0 where
  pub text : Text
  pub provider : String
  pub model : String
  pub request_id : Option String

-- `_validate_generation_result`
unfoldable pub validate_generation_result : Generation → Result Fault Generation
validate_generation_result g = do
  require (leb 1 (length g.text) && leb (length g.text) 1_048_576) validation_error
  ok g

abbrev byte_count : ℕ → ℕ
byte_count c = if ltb c 0x80 then 1 else if ltb c 0x800 then 2 else if ltb c 0x10000 then 3 else 4

-- `len(text.encode("utf-8"))`
unfoldable pub utf8_length : Text → ℕ
utf8_length [] = 0
utf8_length (c ∷ cs) = byte_count c + utf8_length cs

pub data ProviderOutputFailureClass : Type 0 where
  answer_control answer_url answer_uuid : ProviderOutputFailureClass
  answer_evidence_token answer_citation_id : ProviderOutputFailureClass

module _ (u : Unicode) (p : Patterns) where
  abbrev is_formatting : ℕ → Bool
  is_formatting c = c == 10 || c == 13 || c == 9

  -- `classify_provider_answer_safety`
  unfoldable pub classify_provider_answer_safety : Text → Option ProviderOutputFailureClass
  unfolding contains_text
  classify_provider_answer_safety value =
      if not (all (λ c. not (u.is_control c && not (is_formatting c))) value)
      then some ProviderOutputFailureClass.answer_control
      else if p.url_scheme value
      then some ProviderOutputFailureClass.answer_url
      else if p.canonical_uuid value
      then some ProviderOutputFailureClass.answer_uuid
      else if p.evidence_token value
      then some ProviderOutputFailureClass.answer_evidence_token
      else if contains_text (codes "citation_id") (p.casefold value)
      then some ProviderOutputFailureClass.answer_citation_id
      else none

  -- `ProviderAnswer`
  unfoldable pub provider_answer : Text → Result Fault Text
  unfolding nonblank_field classify_provider_answer_safety
  provider_answer value = do
    t ← nonblank_field u 4_000 value
    require (not (is_some (classify_provider_answer_safety t))) validation_error
    ok t

  -- `_validate_provider_answer` of chat/service.py
  unfoldable pub validate_provider_answer : ChatSettings → Text → Result Fault Text
  unfolding provider_answer
  validate_provider_answer s value = do
    answer ← provider_answer value
    require (leb (length answer) s.answer_max_chars) validation_error
    ok answer
