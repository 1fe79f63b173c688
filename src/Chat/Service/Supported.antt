-- ===== src/Chat/Service/Supported.antt =====
-- The evidence of chat/service.py for a retrieval, and what an answer cites of it.
use legal_chatbot_ueb_demo_s.Prelude.{
  ℕ, suc, ◌≡◌, ◌≤◌, refl, ap, subst, true, false, some, List, [], ◌∷◌, length, ok, arith,
  Result-cases, inl, inr,
}
use legal_chatbot_ueb_demo_s.Unicode.{Unicode}
use legal_chatbot_ueb_demo_s.Conversation.Store.{ChatResult, Citation}
use legal_chatbot_ueb_demo_s.Conversation.Snapshots.{nodup}
use legal_chatbot_ueb_demo_s.Conversation.Service.{Reply}
use legal_chatbot_ueb_demo_s.Conversation.Results.{citation_ids, no_citations}
use legal_chatbot_ueb_demo_s.Conversation.Service.Replays.{Resolves}
use legal_chatbot_ueb_demo_s.Chat.Retrieved.{
  RetrievalResult, RetrievalDecision, candidate_ids, candidate_chunks, GroundingExcerpt,
  GroundingEvidence, excerpt_ids, excerpt_chunks, excerpts_of_run, grounding_excerpts,
  grounding_evidence,
}
use legal_chatbot_ueb_demo_s.Chat.Grounding.{validate_grounding_evidence}
use legal_chatbot_ueb_demo_s.Chat.Service.Grounds.{citation_chunks, same_ids_eq}

-- The evidence that was loaded for a retrieval is for its candidates.
pub record Evident (r : RetrievalResult) (g : GroundingEvidence) : Type 0 where
  pub ids : excerpt_ids g.excerpts ≡ candidate_ids r.candidates
  pub chunks : excerpt_chunks g.excerpts ≡ candidate_chunks r.candidates
  pub own : excerpts_of_run r.retrieval_run_id g.excerpts ≡ true
  pub unique : nodup (excerpt_ids g.excerpts) ≡ true
  pub present : 1 ≤ length g.excerpts
  pub few : length g.excerpts ≤ 6

-- An answer cites the candidates of a retrieval that had evidence, in their order, each resolved.
pub record Supported (resolver : ℕ → ℕ → Reply Citation) (r : RetrievalResult) (chat : ChatResult)
    : Type 0 where
  pub decided : r.decision ≡ RetrievalDecision.evidence_available
  pub run : chat.retrieval_run_id ≡ some r.retrieval_run_id
  pub cited : citation_ids chat.citations ≡ candidate_ids r.candidates
  pub chunks : citation_chunks chat.citations ≡ candidate_chunks r.candidates
  pub resolves : Resolves resolver chat.citations

pub length-map_ids : (cs : List Citation) → length (citation_ids cs) ≡ length cs
length-map_ids [] = refl
length-map_ids (c ∷ cs) = ap suc (length-map_ids cs)

pub length-map_excerpts : (es : List GroundingExcerpt) → length (excerpt_ids es) ≡ length es
length-map_excerpts [] = refl
length-map_excerpts (e ∷ es) = ap suc (length-map_excerpts es)

pub no_citations_present : (cs : List Citation) → 1 ≤ length cs → no_citations cs ≡ false
no_citations_present [] h = absurd (omega arith)
no_citations_present (c ∷ cs) h = refl

pub evidence-Evident :
    (u : Unicode) (value g : GroundingEvidence) (r : RetrievalResult)
    → validate_grounding_evidence u value r ≡ ok g
    → Evident r g
unfolding validate_grounding_evidence grounding_evidence
evidence-Evident u value g r h = elim (Result-cases (grounding_excerpts u value.excerpts)) [
  | inr (f, e) ↦ absurd (ground arith)
  | inl (es, e) ↦
      let made : record { retrieval_run_id = value.retrieval_run_id; excerpts = es } ≡ g =
        ground arith in
      let same_run : value.retrieval_run_id ≡ r.retrieval_run_id = ground arith in
      let all_own : excerpts_of_run value.retrieval_run_id es ≡ true = ground arith in
      subst (Evident r) made (record {
        ids = same_ids_eq (excerpt_ids es) (candidate_ids r.candidates) (ground arith);
        chunks = same_ids_eq (excerpt_chunks es) (candidate_chunks r.candidates) (ground arith);
        own = subst (λ n. excerpts_of_run n es ≡ true) same_run all_own;
        unique = ground arith;
        present = ground arith;
        few = ground arith;
      })
]
