-- ===== src/Retrieval/Roles.antt =====
-- retrieval/quality_repair/candidate_roles.py, with the fields of a collapsed candidate
-- (quality_repair/models.py) that it and evidence_budget.py read. Floats are not modelled: a score is
-- of the type `Score`, which the modules that compare scores take as a parameter.
use legal_chatbot_ueb_demo_s.Prelude.{
  ℕ, String, Bool, true, false, not, ◌&&◌, Option, List, [], ◌∷◌, str_eq, if◌then◌else◌, leb,
  length, ◌≡◌, refl, arith, ◌≤◌,
}

pub data ProvenanceType : Type 0 where
  source_fetch manual_snapshot : ProvenanceType

pub record DocumentIdentity : Type 0 where
  pub document_version_id : ℕ
  pub provenance_type : ProvenanceType
  pub latest_ingested : Bool

pub record Candidate (Score : Type 0) : Type 0 where
  pub identity : DocumentIdentity
  pub best_chunk_rank : Option ℕ
  pub merged_unit_ids : List String
  pub fusion_score : Option Score

pub data AuthorityRole : Type 0 where
  direct_authority implementing_or_internal_rule supplementary_authority background : AuthorityRole
  irrelevant : AuthorityRole

pub record Assessment : Type 0 where
  pub document_version_id : ℕ
  pub role : AuthorityRole
  pub supported_unit_ids : List String
  pub applicability_uncertain : Bool
  pub manual_provenance_limited : Bool

-- `unit_id in ...`
abbrev pub contains : String → List String → Bool
contains u [] = false
contains u (v ∷ vs) = if str_eq v u then true else contains u vs

-- `len(set(value)) == len(value)`
abbrev pub distinct : List String → Bool
distinct [] = true
distinct (u ∷ us) = not (contains u us) && distinct us

unfoldable pub supported : List String → List String → List String
supported [] allowed = []
supported (u ∷ us) allowed =
    let rest = supported us allowed in if contains u allowed then u ∷ rest else rest

abbrev is_manual : ProvenanceType → Bool
is_manual ProvenanceType.manual_snapshot = true
is_manual ProvenanceType.source_fetch = false

abbrev pub role_of : List String → ProvenanceType → Bool → AuthorityRole
role_of [] provenance latest = AuthorityRole.irrelevant
role_of (u ∷ us) ProvenanceType.manual_snapshot latest = AuthorityRole.supplementary_authority
role_of (u ∷ us) ProvenanceType.source_fetch true = AuthorityRole.direct_authority
role_of (u ∷ us) ProvenanceType.source_fetch false = AuthorityRole.background

module _ {Score : Type 0} where
  unfoldable pub assess_candidate_role : Candidate Score → List String → Assessment
  unfolding supported
  assess_candidate_role c material_unit_ids =
      let units = supported c.merged_unit_ids material_unit_ids in
      record {
        document_version_id = c.identity.document_version_id;
        role = role_of units c.identity.provenance_type c.identity.latest_ingested;
        supported_unit_ids = units;
        applicability_uncertain = true;
        manual_provenance_limited = is_manual c.identity.provenance_type;
      }

abbrev is_empty : List String → Bool
is_empty [] = true
is_empty (u ∷ us) = false

abbrev pub is_irrelevant : AuthorityRole → Bool
is_irrelevant AuthorityRole.irrelevant = true
is_irrelevant _ = false

abbrev is_direct : AuthorityRole → Bool
is_direct AuthorityRole.direct_authority = true
is_direct _ = false

-- The validators of `CandidateRoleAssessment`.
abbrev pub valid_assessment : Assessment → Bool
valid_assessment a =
    leb (length a.supported_unit_ids) 4
    && distinct a.supported_unit_ids
    && not (is_irrelevant a.role && not (is_empty a.supported_unit_ids))
    && not (a.manual_provenance_limited && is_direct a.role)

length-supported : (us allowed : List String) → length (supported us allowed) ≤ length us
unfolding supported
length-supported [] allowed = omega arith
length-supported (u ∷ us) allowed = ground (arith, length-supported us allowed)

contains-supported :
    (x : String) (us allowed : List String)
    → contains x us ≡ false
    → contains x (supported us allowed) ≡ false
unfolding supported
contains-supported x [] allowed h = refl
contains-supported x (u ∷ us) allowed h = ground (arith, contains-supported x us allowed)

distinct-supported :
    (us allowed : List String) → distinct us ≡ true → distinct (supported us allowed) ≡ true
unfolding supported
distinct-supported [] allowed h = refl
distinct-supported (u ∷ us) allowed h =
    ground (arith, distinct-supported us allowed, contains-supported u us allowed)

-- An assessment of a candidate with at most four units, all distinct, passes every validator of the
-- assessment: irrelevant evidence supports no unit, and a manual snapshot is never direct authority.
pub assess_candidate_role_valid :
    {Score : Type 0} (c : Candidate Score) (material_unit_ids : List String)
    → distinct c.merged_unit_ids ≡ true
    → length c.merged_unit_ids ≤ 4
    → valid_assessment (assess_candidate_role c material_unit_ids) ≡ true
unfolding assess_candidate_role
assess_candidate_role_valid c material_unit_ids h k = ground (
  arith,
  distinct-supported c.merged_unit_ids material_unit_ids,
  length-supported c.merged_unit_ids material_unit_ids,
)
