-- ===== src/Chat/Retrieved.antt =====
-- The contracts of src/legal_chatbot/retrieval/models.py and of the grounding evidence of
-- chat/models.py that the chat receives and sends, each with its validators.
use legal_chatbot_ueb_demo_s.Prelude.{
  ℕ, suc, ◌+◌, Bool, true, false, not, ◌&&◌, ◌||◌, Option, none, some, List, [], ◌∷◌, map, leb,
  ◌==◌, if◌then◌else◌, length, Text, Result, ok, err, ◌>>=◌, ◌>>◌, require,
}
use legal_chatbot_ueb_demo_s.Unicode.{Unicode, strip, is_blank}
use legal_chatbot_ueb_demo_s.Retrieval.Roles.{ProvenanceType}
use legal_chatbot_ueb_demo_s.Conversation.Store.{
  Citation, TransportTrustMode, TrustLabel, Fault, validation_error,
}
use legal_chatbot_ueb_demo_s.Conversation.Snapshots.{nodup}
use legal_chatbot_ueb_demo_s.Conversation.Policy.Contracts.{TemporalScope, nonblank_field}
use legal_chatbot_ueb_demo_s.Chat.Words.{same_text}

pub data RetrievalDecision : Type 0 where
  evidence_available no_results unsupported_temporal_scope invalid_evidence_chain :
      RetrievalDecision

-- `RetrievalCandidate`, without its scores.
pub record RetrievalCandidate : Type 0 where
  pub citation_id : ℕ
  pub document_chunk_id : ℕ
  pub rank : ℕ

-- `RetrievalResult`, without its reason and its quality context.
pub record RetrievalResult : Type 0 where
  pub retrieval_run_id : ℕ
  pub candidates : List RetrievalCandidate
  pub candidate_count : ℕ
  pub citation_count : ℕ
  pub decision : RetrievalDecision

abbrev pub candidate_ids : List RetrievalCandidate → List ℕ
candidate_ids cs = map (λ c. c.citation_id) cs

abbrev pub candidate_chunks : List RetrievalCandidate → List ℕ
candidate_chunks cs = map (λ c. c.document_chunk_id) cs

abbrev ranked_from : ℕ → List RetrievalCandidate → Bool
ranked_from n [] = true
ranked_from n (c ∷ cs) = c.rank == n && ranked_from (suc n) cs

abbrev pub fits_decision : RetrievalDecision → ℕ → Bool
fits_decision RetrievalDecision.evidence_available n = not (n == 0)
fits_decision _ n = n == 0

-- `validate_counts_and_decision`
unfoldable pub valid_retrieval : RetrievalResult → Bool
valid_retrieval r =
    r.candidate_count == length r.candidates
    && r.citation_count == length r.candidates
    && nodup (candidate_ids r.candidates)
    && nodup (candidate_chunks r.candidates)
    && ranked_from 1 r.candidates
    && fits_decision r.decision (length r.candidates)

-- `RetrievalRequest`; the scope and the trust scope stay at their defaults.
pub record RetrievalRequest : Type 0 where
  pub query : Text
  pub expansion_query : Option Text
  pub expansion_document_ids : List ℕ
  pub top_k : ℕ
  pub temporal_scope : TemporalScope

abbrev no_ids : List ℕ → Bool
no_ids [] = true
no_ids (x ∷ xs) = false

-- `validate_expansion_consistency`
abbrev consistent_expansion : Text → Option Text → List ℕ → Bool
consistent_expansion query none documents = no_ids documents
consistent_expansion query (some expansion) documents = not (same_text expansion query)

-- `strip_and_validate_query`, with the bound of the field.
unfoldable pub stripped_field : Unicode → Text → Result Fault Text
stripped_field u text =
    let t = strip u.is_space text in
    if is_blank t || not (leb (length t) 4_000) then err validation_error else ok t

unfoldable pub stripped_optional : Unicode → Option Text → Result Fault (Option Text)
unfolding stripped_field
stripped_optional u none = ok none
stripped_optional u (some text) = do t ← stripped_field u text; ok (some t)

unfoldable pub retrieval_request :
    Unicode → Text → Option Text → List ℕ → ℕ → TemporalScope → Result Fault RetrievalRequest
unfolding stripped_field stripped_optional
retrieval_request u query expansion documents top_k scope = do
  q ← stripped_field u query
  e ← stripped_optional u expansion
  require (leb (length documents) 2 && nodup documents) validation_error
  require (leb 1 top_k && leb top_k 20) validation_error
  require (consistent_expansion q e documents) validation_error
  ok (record {
    query = q;
    expansion_query = e;
    expansion_document_ids = documents;
    top_k = top_k;
    temporal_scope = scope;
  })

-- `evidence_trust_label_for`, whether it returns the label.
unfoldable pub labelled : TransportTrustMode → ProvenanceType → TrustLabel → Bool
labelled TransportTrustMode.strict_tls ProvenanceType.manual_snapshot TrustLabel.manual_snapshot =
    true
labelled TransportTrustMode.strict_tls ProvenanceType.source_fetch TrustLabel.official_legal = true
labelled TransportTrustMode.user_approved_tofu_pinned_exception ProvenanceType.source_fetch
      TrustLabel.official_legal_pinned_exception =
    true
labelled _ _ _ = false

-- `validate_derived_transport_trust_label`
abbrev pub valid_citation : Citation → Bool
valid_citation c = labelled c.transport_trust_mode c.provenance_type c.evidence_trust_label

pub record GroundingExcerpt : Type 0 where
  pub citation : Citation
  pub text : Text

pub record GroundingEvidence : Type 0 where
  pub retrieval_run_id : ℕ
  pub excerpts : List GroundingExcerpt

abbrev pub excerpt_ids : List GroundingExcerpt → List ℕ
excerpt_ids es = map (λ e. e.citation.citation_id) es

abbrev pub excerpt_chunks : List GroundingExcerpt → List ℕ
excerpt_chunks es = map (λ e. e.citation.document_chunk_id) es

abbrev pub excerpts_of_run : ℕ → List GroundingExcerpt → Bool
excerpts_of_run run [] = true
excerpts_of_run run (e ∷ es) = e.citation.retrieval_run_id == run && excerpts_of_run run es

unfoldable pub excerpts_length : List GroundingExcerpt → ℕ
excerpts_length [] = 0
excerpts_length (e ∷ es) = length e.text + excerpts_length es

-- `GroundingExcerpt` of each.
unfoldable pub grounding_excerpts :
    Unicode → List GroundingExcerpt → Result Fault (List GroundingExcerpt)
unfolding nonblank_field labelled
grounding_excerpts u [] = ok []
grounding_excerpts u (e ∷ es) = do
  t ← nonblank_field u 2_000 e.text
  require (valid_citation e.citation) validation_error
  rest ← grounding_excerpts u es
  ok (record { citation = e.citation; text = t } ∷ rest)

-- `GroundingEvidence`
unfoldable pub grounding_evidence : Unicode → GroundingEvidence → Result Fault GroundingEvidence
unfolding grounding_excerpts excerpts_length
grounding_evidence u g = do
  es ← grounding_excerpts u g.excerpts
  require (leb 1 (length es) && leb (length es) 6) validation_error
  require
      (nodup (excerpt_ids es)
        && excerpts_of_run g.retrieval_run_id es
        && leb (excerpts_length es) 6_000)
      validation_error
  ok (record { retrieval_run_id = g.retrieval_run_id; excerpts = es })
