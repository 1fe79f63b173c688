-- ===== src/Retrieval/Evidence/Ranked.antt =====
-- `sorted` of retrieval/quality_repair/evidence_budget.py, read by document.
use legal_chatbot_ueb_demo_s.Prelude.{
  ℕ, Bool, none, some, List, [], ◌∷◌, ◌==◌, if◌then◌else◌, ◌≡◌, refl, arith, Bool-cases, inl, inr,
}
use legal_chatbot_ueb_demo_s.Table.{find, Unique}
use legal_chatbot_ueb_demo_s.Retrieval.Evidence.{Pair, version, before, insert, sort}

module _ {Score : Type 0} (zero_score : Score) (less : Score → Score → Bool) where
  find-insert :
      (k : ℕ) (p : Pair Score) (qs : List (Pair Score))
      → find version (version p) qs ≡ none
      → find version k (insert Score zero_score less p qs)
        ≡ (if version p == k then some p else find version k qs)
  unfolding find insert
  find-insert k p [] h = ground arith
  find-insert k p (q ∷ qs) h = elim (Bool-cases (before Score zero_score less q p)) [
    | inl sooner ↦ ground (arith, find-insert k p qs)
    | inr later ↦ ground arith
  ]

  insert-Unique :
      (p : Pair Score) (qs : List (Pair Score))
      → Unique version qs
      → find version (version p) qs ≡ none
      → Unique version (insert Score zero_score less p qs)
  unfolding find insert
  insert-Unique p [] u h = ground arith
  insert-Unique p (q ∷ qs) u h = elim (Bool-cases (before Score zero_score less q p)) [
    | inl sooner ↦ ground (arith, insert-Unique p qs, find-insert (version q) p qs)
    | inr later ↦ ground arith
  ]

  pub find-sort :
      (k : ℕ) (ps : List (Pair Score))
      → Unique version ps
      → find version k (sort Score zero_score less ps) ≡ find version k ps
  unfolding find sort
  find-sort k [] u = refl
  find-sort k (p ∷ ps) u = ground (
    arith,
    find-sort k ps,
    find-sort (version p) ps,
    find-insert k p (sort Score zero_score less ps),
  )

  pub sort-Unique :
      (ps : List (Pair Score)) → Unique version ps → Unique version (sort Score zero_score less ps)
  unfolding sort
  sort-Unique [] u = tt
  sort-Unique (p ∷ ps) u = ground (
    arith,
    sort-Unique ps,
    find-sort (version p) ps,
    insert-Unique p (sort Score zero_score less ps),
  )
