-- ===== src/Retrieval/Evidence/Promise.antt =====
-- What retrieval/quality_repair/evidence_budget.py promises of a selection.
use legal_chatbot_ueb_demo_s.Prelude.{
  ℕ, ◌+◌, ◌≤◌, String, str_eq, eq_iff, Bool, true, false, ◌&&◌, ◌||◌, none, some, List, [], ◌∷◌,
  ◌++◌, ltb, length, length-append, ok, ◌≡◌, refl, arith, Option-cases, Bool-cases, inl, inr,
}
use legal_chatbot_ueb_demo_s.Table.{
  first, find, exists, Unique, find-first, first-none, first_sound,
}
use legal_chatbot_ueb_demo_s.Retrieval.Roles.{
  Candidate, contains, is_irrelevant, supported, role_of, ProvenanceType,
}
use legal_chatbot_ueb_demo_s.Retrieval.Evidence.{
  Pair, Selection, version, supports, is_usable, cover_units, fill, distinct_versions,
  valid_selection, evidence_target_count, sort, assess, select_evidence,
}
use legal_chatbot_ueb_demo_s.Retrieval.Evidence.Budget.{
  distinct_Unique, Unique_distinct, Owned, Owned-find, Good, cover_units-Good, fill-Good,
  Listed-all, add,
}
use legal_chatbot_ueb_demo_s.Retrieval.Evidence.Ranked.{find-sort, sort-Unique}

role_of_relevant :
    (x : String) (us : List String) (t : ProvenanceType) (latest : Bool)
    → contains x us ≡ true
    → is_irrelevant (role_of us t latest) ≡ false
role_of_relevant x [] t latest h = ground arith
role_of_relevant x (u ∷ us) ProvenanceType.manual_snapshot latest h = refl
role_of_relevant x (u ∷ us) ProvenanceType.source_fetch true h = refl
role_of_relevant x (u ∷ us) ProvenanceType.source_fetch false h = refl

module _ {Score : Type 0} where
  -- Some pair supports the unit.
  abbrev pub covers : String → List (Pair Score) → Bool
  covers u ps = exists (supports u) ps

  covers-append :
      (u : String) (ps : List (Pair Score)) (p : Pair Score)
      → covers u (ps ++ p ∷ []) ≡ (covers u ps || supports u p)
  unfolding first
  covers-append u [] p = ground arith
  covers-append u (q ∷ ps) p = ground (arith, covers-append u ps p)

  fill-covers :
      (u : String) (target : ℕ) (ordered ps : List (Pair Score))
      → covers u ps ≡ true
      → covers u (fill target ordered ps) ≡ true
  unfolding fill
  fill-covers u target [] ps h = h
  fill-covers u target (p ∷ ordered) ps h = ground (
    arith,
    fill-covers u target ordered ps,
    fill-covers u target ordered (ps ++ p ∷ []),
    covers-append u ps p,
  )

  matching : String → List (Pair Score) → Pair Score → Bool
  matching x ps p = supports x p && is_usable ps p

  cover_units-covers :
      (u : String) (us : List String) (target : ℕ) (ordered ps : List (Pair Score))
      → covers u ps ≡ true
      → covers u (cover_units us target ordered ps) ≡ true
  unfolding cover_units matching
  cover_units-covers u [] target ordered ps h = h
  cover_units-covers u (x ∷ us) target ordered ps h =
      elim (Option-cases (first (matching x ps) ordered)) [
        | inl gone ↦ rw gone (cover_units-covers u us target ordered ps h)
        | inr (p, there) ↦ elim (Bool-cases (ltb (length ps) target)) [
          | inl room ↦
              rw (there, room)
                (cover_units-covers u us target ordered (ps ++ p ∷ [])
                  (ground (arith, covers-append u ps p)))
          | inr full ↦ rw (there, full) (cover_units-covers u us target ordered ps h)
        ]
      ]

  -- A usable supporter that the search does not return is selected already.
  selected_supporter :
      (x : String) (ordered ps : List (Pair Score)) (p : Pair Score)
      → Owned ordered ps
      → find version (version p) ordered ≡ some p
      → supports x p ≡ true
      → is_irrelevant p.assessment.role ≡ false
      → first (matching x ps) ordered ≡ none
      → covers x ps ≡ true
  unfolding matching
  selected_supporter x ordered ps p o f s r gone =
      elim (Option-cases (find version (version p) ps)) [
        | inl absent ↦ ground (arith, first-none version (matching x ps) ordered (version p) p)
        | inr (q, there) ↦ ground (
          arith,
          Owned-find ordered ps (version p) q,
          first-none version (supports x) ps (version p) q,
        )
      ]

  -- A unit of the list with a relevant supporter is covered while there is room for every unit.
  cover_units_lem :
      (x : String) (us : List String) (target : ℕ) (ordered ps : List (Pair Score)) (p : Pair Score)
      → Unique version ordered
      → Good ordered target ps
      → contains x us ≡ true
      → length ps + length us ≤ target
      → find version (version p) ordered ≡ some p
      → supports x p ≡ true
      → is_irrelevant p.assessment.role ≡ false
      → covers x (cover_units us target ordered ps) ≡ true
  unfolding cover_units matching
  cover_units_lem x [] target ordered ps p u g c room f s r = ground arith
  cover_units_lem x (y ∷ us) target ordered ps p u g c room f s r =
      elim (Option-cases (first (matching y ps) ordered)) [
        | inl gone ↦ rw gone (elim (Bool-cases (str_eq y x)) [
          | inl same ↦
              let here : y ≡ x = ground (arith, eq_iff y x) in
              cover_units-covers x us target ordered ps
                (selected_supporter x ordered ps p g.owned f s r (rw here at gone))
          | inr other ↦
              cover_units_lem x us target ordered ps p u g (ground arith) (ground arith) f s r
        ])
        | inr (q, there) ↦
            let free : ltb (length ps) target ≡ true = ground arith in
            let kept = first_sound (matching y ps) ordered q there in
            let found = find-first version (matching y ps) ordered q u there in
            rw (there, free)
              (elim (Bool-cases (str_eq y x)) [
                | inl same ↦
                    let here : y ≡ x = ground (arith, eq_iff y x) in
                    cover_units-covers x us target ordered (ps ++ q ∷ [])
                      (ground (arith, covers-append x ps q, (rw here at kept)))
                | inr other ↦
                    cover_units_lem x us target ordered (ps ++ q ∷ []) p u
                      (add ordered target ps q g (ground arith) (ground arith) found) (ground arith)
                      (ground (arith, length-append ps (q ∷ []))) f s r
              ])
      ]

  -- Evidence that supports a unit is relevant.
  supporter_relevant :
      (x : String) (units : List String) (cs : List (Candidate Score)) (p : Pair Score)
      → first (supports x) (assess units cs) ≡ some p
      → is_irrelevant p.assessment.role ≡ false
  unfolding first assess
  supporter_relevant x units [] p h = ground arith
  supporter_relevant x units (c ∷ cs) p h =
      elim (Bool-cases (contains x (supported c.merged_unit_ids units))) [
        | inl here ↦
            let units' = supported c.merged_unit_ids units in
            let relevant =
              role_of_relevant x units' c.identity.provenance_type c.identity.latest_ingested
                here in
            ground (arith, relevant)
        | inr gone ↦ ground (arith, supporter_relevant x units cs p)
      ]

module _ {Score : Type 0} (zero_score : Score) (less : Score → Score → Bool)
    (candidates : List (Candidate Score)) (units : List String) (dynamic : Bool)
    (collapsed : distinct_versions (assess units candidates) ≡ true) where
  selection : Selection Score
  selection =
      let target = evidence_target_count units dynamic in
      let ordered = sort Score zero_score less (assess units candidates) in
      record {
        selected = fill target ordered (cover_units units target ordered []);
        target_count = target;
        dynamic = dynamic;
      }

  selection-Good :
      Good
        (sort Score zero_score less (assess units candidates))
        (evidence_target_count units dynamic)
        selection.selected
  unfolding selection
  selection-Good =
      let target = evidence_target_count units dynamic in
      let pairs = assess units candidates in
      let ordered = sort Score zero_score less pairs in
      let u = sort-Unique zero_score less pairs (distinct_Unique pairs collapsed) in
      fill-Good target ordered ordered (cover_units units target ordered []) (Listed-all ordered u)
        (cover_units-Good units target ordered [] u
          record { distinct = tt; room = omega arith; owned = tt })

  selection_valid : valid_selection selection ≡ true
  unfolding selection valid_selection evidence_target_count
  selection_valid =
      let g = selection-Good in
      ground (arith, Unique_distinct selection.selected g.distinct, g.room)

  selection_made : select_evidence Score zero_score less candidates units dynamic ≡ ok selection
  unfolding selection select_evidence
  selection_made = ground (arith, selection_valid)

  -- Candidates are collapsed by document version and the budget has a slot for every material unit:
  -- then each unit that some candidate supports is supported by a selected one.
  pub select_evidence-covers :
      (u : String)
      → contains u units ≡ true
      → length units ≤ evidence_target_count units dynamic
      → covers u (assess units candidates) ≡ true
      → (s : Selection Score) × (select_evidence Score zero_score less candidates units dynamic
          ≡ ok s)
        × (covers u s.selected ≡ true)
  unfolding selection
  select_evidence-covers u c room supported_somewhere =
      let pairs = assess units candidates in
      let distinct = distinct_Unique pairs collapsed in
      let ordered = sort Score zero_score less pairs in
      let target = evidence_target_count units dynamic in
      let once = sort-Unique zero_score less pairs distinct in
      elim (Option-cases (first (supports u) pairs)) [
        | inl gone ↦ ground (arith, gone)
        | inr (p, there) ↦ (
          selection,
          selection_made,
          fill-covers u target ordered (cover_units units target ordered []) (
              cover_units_lem u units target ordered [] p once
                record { distinct = tt; room = omega arith; owned = tt } c (omega (arith, room))
                (ground (
                  arith,
                  find-sort zero_score less (version p) pairs distinct,
                  find-first version (supports u) pairs p distinct there,
                ))
                (first_sound (supports u) pairs p there)
                (supporter_relevant u units candidates p there)),
        )
      ]
