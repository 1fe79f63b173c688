-- ===== src/Examples/Evidence.antt =====
-- The theorems on candidate_roles.py and evidence_budget.py of retrieval/quality_repair/, with scores
-- that are numbers.
use legal_chatbot_ueb_demo_s.Prelude.{
  ℕ, ◌≡◌, refl, String, true, false, some, List, [], ◌∷◌, ltb, ok, arith,
}
use legal_chatbot_ueb_demo_s.Table.{find, first}
use legal_chatbot_ueb_demo_s.Retrieval.Roles.{
  ProvenanceType, Candidate, supported, assess_candidate_role, valid_assessment,
  assess_candidate_role_valid,
}
use legal_chatbot_ueb_demo_s.Retrieval.Evidence.{
  Selection, assess, distinct_versions, select_evidence, evidence_target_count,
}
use legal_chatbot_ueb_demo_s.Retrieval.Evidence.Promise.{covers, select_evidence-covers}

abbrev candidate_of : ℕ → List String → Candidate ℕ
candidate_of version units = record {
  identity = record {
    document_version_id = version;
    provenance_type = ProvenanceType.source_fetch;
    latest_ingested = true;
  };
  best_chunk_rank = some 1;
  merged_unit_ids = units;
  fusion_score = some version;
}

abbrev some_units : List String
some_units = "u1" ∷ "u2" ∷ []

abbrev some_candidates : List (Candidate ℕ)
some_candidates =
    candidate_of 9 ("u1" ∷ [])
    ∷ candidate_of 8 ("u1" ∷ [])
    ∷ candidate_of 7 ("u1" ∷ [])
    ∷ candidate_of 1 ("u2" ∷ [])
    ∷ []

assess_candidate_role_valid_example :
    valid_assessment (assess_candidate_role (candidate_of 9 ("u1" ∷ "u3" ∷ [])) some_units) ≡ true
assess_candidate_role_valid_example =
    assess_candidate_role_valid (candidate_of 9 ("u1" ∷ "u3" ∷ [])) some_units refl (omega arith)

-- The only candidate for the second unit ranks last, and is selected.
select_evidence-covers_example :
    (s : Selection ℕ) × (select_evidence ℕ 0 ltb some_candidates some_units false ≡ ok s)
    × (covers "u2" s.selected ≡ true)
unfolding distinct_versions find first assess assess_candidate_role supported evidence_target_count
select_evidence-covers_example =
    select_evidence-covers 0 ltb some_candidates some_units false refl "u2" refl (omega arith) refl
