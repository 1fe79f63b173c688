-- ===== src/Retrieval/Evidence.antt =====
-- retrieval/quality_repair/evidence_budget.py. Of an analysis it reads the identifiers of the units.
-- `less` is `<` on scores; the string of a UUID orders as its number.
pub mod Budget
pub mod Ranked
pub mod Promise
use legal_chatbot_ueb_demo_s.Prelude.{
  ℕ, ◌+◌, String, Bool, true, false, not, ◌&&◌, ◌||◌, Option, none, some, List, [], ◌∷◌, ◌++◌, map,
  min, max, ltb, leb, ◌==◌, if◌then◌else◌, length, all, Result, ok, err,
}
use legal_chatbot_ueb_demo_s.Table.{first, find, is_some}
use legal_chatbot_ueb_demo_s.Retrieval.Roles.{
  AuthorityRole, Candidate, Assessment, contains, is_irrelevant, assess_candidate_role,
}

abbrev pub min_evidence : ℕ
min_evidence = 3

abbrev pub max_dynamic_evidence : ℕ
max_dynamic_evidence = 6

abbrev role_rank : AuthorityRole → ℕ
role_rank AuthorityRole.direct_authority = 0
role_rank AuthorityRole.implementing_or_internal_rule = 1
role_rank AuthorityRole.supplementary_authority = 2
role_rank AuthorityRole.background = 3
role_rank AuthorityRole.irrelevant = 4

-- `candidate.best_chunk_rank or 51`
abbrev rank_or_last : Option ℕ → ℕ
rank_or_last none = 51
rank_or_last (some r) = if r == 0 then 51 else r

-- `evidence_target_count`
unfoldable pub evidence_target_count : List String → Bool → ℕ
evidence_target_count units dynamic =
    if dynamic then min max_dynamic_evidence (max min_evidence (length units)) else min_evidence

pub record Pair (Score : Type 0) : Type 0 where
  pub candidate : Candidate Score
  pub assessment : Assessment

-- The bounds and validators of `EvidenceSelection` speak of the candidates and assessments together.
pub record Selection (Score : Type 0) : Type 0 where
  pub selected : List (Pair Score)
  pub target_count : ℕ
  pub dynamic : Bool

pub data SelectError : Type 0 where
  value_error : SelectError

module _ {Score : Type 0} where
  abbrev pub version : Pair Score → ℕ
  version p = p.candidate.identity.document_version_id

  abbrev pub supports : String → Pair Score → Bool
  supports u p = contains u p.assessment.supported_unit_ids

  -- `... .document_version_id not in selected_ids`, over the pairs selected so far.
  abbrev pub is_selected : ℕ → List (Pair Score) → Bool
  is_selected v selected = is_some (find version v selected)

  abbrev pub is_usable : List (Pair Score) → Pair Score → Bool
  is_usable selected p =
      not (is_irrelevant p.assessment.role) && not (is_selected (version p) selected)

  -- The loop over the material units.
  unfoldable pub cover_units :
      List String → ℕ → List (Pair Score) → List (Pair Score) → List (Pair Score)
  unfolding first
  cover_units [] target ordered selected = selected
  cover_units (u ∷ us) target ordered selected =
      cover_units us target ordered
        (elim (first (λ p. supports u p && is_usable selected p) ordered) [
          | none ↦ selected
          | some p ↦ if ltb (length selected) target then selected ++ p ∷ [] else selected
        ])

  -- The loop that fills the remaining slots.
  unfoldable pub fill : ℕ → List (Pair Score) → List (Pair Score) → List (Pair Score)
  fill target [] selected = selected
  fill target (p ∷ ordered) selected =
      let rest =
        fill target ordered (if is_usable selected p then selected ++ p ∷ [] else selected) in
      if leb target (length selected) then selected else rest

  unfoldable pub distinct_versions : List (Pair Score) → Bool
  distinct_versions [] = true
  distinct_versions (p ∷ ps) = not (is_selected (version p) ps) && distinct_versions ps

  unfoldable pub valid_selection : Selection Score → Bool
  unfolding distinct_versions
  valid_selection s =
      leb (length s.selected) max_dynamic_evidence
      && leb min_evidence s.target_count
      && leb s.target_count max_dynamic_evidence
      && distinct_versions s.selected
      && leb (length s.selected) s.target_count
      && (s.dynamic || s.target_count == min_evidence)

  unfoldable pub assess : List String → List (Candidate Score) → List (Pair Score)
  unfolding assess_candidate_role
  assess units [] = []
  assess units (c ∷ cs) =
      record { candidate = c; assessment = assess_candidate_role c units } ∷ assess units cs

module _ (Score : Type 0) (zero_score : Score) (less : Score → Score → Bool) where
  -- `candidate.fusion_score or 0.0`
  unfoldable pub score : Pair Score → Score
  score p = elim p.candidate.fusion_score [ none ↦ zero_score | some s ↦ s ]

  -- `<` on the keys of `_rank_key`.
  unfoldable pub before : Pair Score → Pair Score → Bool
  unfolding score
  before p q =
      let a = role_rank p.assessment.role in
      let b = role_rank q.assessment.role in
      let r = rank_or_last p.candidate.best_chunk_rank in
      let s = rank_or_last q.candidate.best_chunk_rank in
      if ltb a b
      then true
      else if ltb b a
      then false
      else if less (score q) (score p)
      then true
      else if less (score p) (score q)
      then false
      else if ltb r s
      then true
      else if ltb s r
      then false
      else ltb (version p) (version q)

  -- `sorted`, which is stable.
  unfoldable pub insert : Pair Score → List (Pair Score) → List (Pair Score)
  unfolding before
  insert p [] = p ∷ []
  insert p (q ∷ qs) = let rest = insert p qs in if before q p then q ∷ rest else p ∷ q ∷ qs

  unfoldable pub sort : List (Pair Score) → List (Pair Score)
  unfolding insert
  sort [] = []
  sort (p ∷ ps) = insert p (sort ps)

  unfoldable pub select_evidence :
      List (Candidate Score) → List String → Bool → Result SelectError (Selection Score)
  unfolding assess sort cover_units fill evidence_target_count distinct_versions valid_selection
  select_evidence candidates units dynamic =
      let pairs = assess units candidates in
      let ordered = sort pairs in
      let target = evidence_target_count units dynamic in
      let selection : Selection Score = record {
        selected = fill target ordered (cover_units units target ordered []);
        target_count = target;
        dynamic = dynamic;
      } in
      if not (distinct_versions pairs)
      then err value_error
      else if valid_selection selection
      then ok selection
      else err value_error
