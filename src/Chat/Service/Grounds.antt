-- ===== src/Chat/Service/Grounds.antt =====
-- The citations of an answer of chat/service.py: those of the retrieved candidates, resolved anew.
use legal_chatbot_ueb_demo_s.Prelude.{
  ℕ, ◌≡◌, refl, subst, true, ◌&&◌, some, List, [], ◌∷◌, map, ok, err, arith, Result-cases,
  Bool-cases, inl, inr,
}
use legal_chatbot_ueb_demo_s.Conversation.Store.{Citation}
use legal_chatbot_ueb_demo_s.Conversation.Completion.{same_ids}
use legal_chatbot_ueb_demo_s.Conversation.Service.{Reply, heard}
use legal_chatbot_ueb_demo_s.Conversation.Results.{citation_ids, of_run}
use legal_chatbot_ueb_demo_s.Conversation.Service.Replays.{Resolves}
use legal_chatbot_ueb_demo_s.Chat.Retrieved.{
  RetrievalCandidate, GroundingExcerpt, excerpt_ids, excerpt_chunks, excerpts_of_run,
  valid_citation, candidate_ids,
}
use legal_chatbot_ueb_demo_s.Chat.Grounding.{same_citation_identity, reresolve_citations}

abbrev pub citation_chunks : List Citation → List ℕ
citation_chunks cs = map (λ c. c.document_chunk_id) cs

pub same_ids_eq : (xs ys : List ℕ) → same_ids xs ys ≡ true → xs ≡ ys
same_ids_eq [] [] h = refl
same_ids_eq [] (y ∷ ys) h = absurd (ground arith)
same_ids_eq (x ∷ xs) [] h = absurd (ground arith)
same_ids_eq (x ∷ xs) (y ∷ ys) h = ground (arith, same_ids_eq xs ys)

heard_reply : {A : Type 0} (r : Reply A) (a : A) → heard r ≡ ok a → r ≡ ok a
heard_reply (ok b) a h = ground arith
heard_reply (err e) a h = absurd (ground arith)

-- What the citations that have been resolved anew agree with.
pub record Grounds (resolver : ℕ → ℕ → Reply Citation) (run : ℕ) (cs : List RetrievalCandidate)
    (es : List GroundingExcerpt) (citations : List Citation) : Type 0 where
  pub same_ids : citation_ids citations ≡ excerpt_ids es
  pub same_chunks : citation_chunks citations ≡ excerpt_chunks es
  pub of_one_run : of_run (some run) citations ≡ true
  pub resolves : Resolves resolver citations

module _ (resolver : ℕ → ℕ → Reply Citation) (run : ℕ) where
  same_identity :
      (c e : Citation)
      → same_citation_identity c e ≡ true
      → (c.citation_id ≡ e.citation_id)
        × (c.retrieval_run_id ≡ e.retrieval_run_id)
        × (c.document_chunk_id ≡ e.document_chunk_id)
  unfolding same_citation_identity
  same_identity c e h = (ground arith, ground arith, ground arith)

  pub reresolve_citations-Grounds :
      (cs : List RetrievalCandidate) (es : List GroundingExcerpt) (citations : List Citation)
      → candidate_ids cs ≡ excerpt_ids es
      → excerpts_of_run run es ≡ true
      → reresolve_citations resolver run cs es ≡ ok citations
      → Grounds resolver run cs es citations
  unfolding reresolve_citations
  reresolve_citations-Grounds [] [] citations same own h =
      let none_left : [] ≡ citations = ground arith in
      subst (Grounds resolver run [] []) none_left
        (record { same_ids = refl; same_chunks = refl; of_one_run = refl; resolves = tt })
  reresolve_citations-Grounds [] (e ∷ es) citations same own h = absurd (ground arith)
  reresolve_citations-Grounds (c ∷ cs) [] citations same own h = absurd (ground arith)
  reresolve_citations-Grounds (c ∷ cs) (e ∷ es) citations same own h =
      elim (Result-cases (heard (resolver c.citation_id run))) [
        | inr (f, r) ↦ absurd (ground arith)
        | inl (x, r) ↦ elim (Bool-cases (valid_citation x && same_citation_identity x e.citation)) [
          | inr refused ↦ absurd (ground (arith, refused))
          | inl checked ↦ elim (Result-cases (reresolve_citations resolver run cs es)) [
            | inr (f, q) ↦ absurd (ground arith)
            | inl (xs, q) ↦
                let made : x ∷ xs ≡ citations = ground arith in
                let known = heard_reply (resolver c.citation_id run) x r in
                let identity = same_identity x e.citation (ground arith) in
                let same_id : c.citation_id ≡ x.citation_id = ground (arith, identity.0, same) in
                let same_run : run ≡ x.retrieval_run_id = ground (arith, identity.1, own) in
                let rest =
                  reresolve_citations-Grounds cs es xs (ground (arith, same)) (ground (arith, own))
                    q in
                subst (Grounds resolver run (c ∷ cs) (e ∷ es)) made (record {
                  same_ids = ground (arith, identity.0, rest.same_ids);
                  same_chunks = ground (arith, identity.2, rest.same_chunks);
                  of_one_run = ground (arith, same_run, rest.of_one_run);
                  resolves = (
                    subst (λ n. resolver x.citation_id n ≡ ok x) same_run
                        (subst (λ i. resolver i run ≡ ok x) same_id known),
                    rest.resolves,
                  );
                })
          ]
        ]
      ]
