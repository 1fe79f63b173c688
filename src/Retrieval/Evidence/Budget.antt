-- ===== src/Retrieval/Evidence/Budget.antt =====
-- The invariant of the two selecting loops of retrieval/quality_repair/evidence_budget.py.
use legal_chatbot_ueb_demo_s.Prelude.{
  ℕ, ◌≤◌, ◌<◌, String, true, false, ◌&&◌, none, some, List, [], ◌∷◌, ◌++◌, ltb, leb, ◌==◌,
  if◌then◌else◌, length, length-append, ◌≡◌, refl, arith, Option-cases, Bool-cases, inl, inr,
}
use legal_chatbot_ueb_demo_s.Table.{
  first, find, is_some, Unique, find-first, first_sound, find_sound,
}
use legal_chatbot_ueb_demo_s.Retrieval.Roles.{is_irrelevant}
use legal_chatbot_ueb_demo_s.Retrieval.Evidence.{
  Pair, version, supports, is_selected, is_usable, cover_units, fill, distinct_versions,
}

module _ {Score : Type 0} where
  pub distinct_Unique : (ps : List (Pair Score)) → distinct_versions ps ≡ true → Unique version ps
  unfolding distinct_versions
  distinct_Unique [] h = tt
  distinct_Unique (p ∷ ps) h = elim (Option-cases (find version (version p) ps)) [
    | inl gone ↦ (gone, distinct_Unique ps (ground (arith, gone)))
    | inr (q, there) ↦ ground (arith, there)
  ]

  pub Unique_distinct : (ps : List (Pair Score)) → Unique version ps → distinct_versions ps ≡ true
  unfolding distinct_versions
  Unique_distinct [] u = refl
  Unique_distinct (p ∷ ps) u = ground (arith, Unique_distinct ps)

  find-append :
      (k : ℕ) (ps : List (Pair Score)) (p : Pair Score)
      → find version k (ps ++ p ∷ []) ≡ (
          if is_some (find version k ps)
          then find version k ps
          else if version p == k
          then some p
          else none)
  unfolding find
  find-append k [] p = ground arith
  find-append k (q ∷ ps) p = ground (arith, find-append k ps p)

  append-Unique :
      (ps : List (Pair Score)) (p : Pair Score)
      → Unique version ps
      → is_selected (version p) ps ≡ false
      → Unique version (ps ++ p ∷ [])
  unfolding find
  append-Unique [] p u h = ground arith
  append-Unique (q ∷ ps) p u h = ground (arith, find-append (version q) ps p, append-Unique ps p)

  -- The pairs of a selection are relevant ones of the ranked list.
  abbrev pub Owned : List (Pair Score) → List (Pair Score) → Type 0
  Owned ordered [] = Unit
  Owned ordered (p ∷ ps) =
      (is_irrelevant p.assessment.role ≡ false)
      × (find version (version p) ordered ≡ some p)
      × Owned ordered ps

  append-Owned :
      (ordered ps : List (Pair Score)) (p : Pair Score)
      → Owned ordered ps
      → is_irrelevant p.assessment.role ≡ false
      → find version (version p) ordered ≡ some p
      → Owned ordered (ps ++ p ∷ [])
  append-Owned ordered [] p o r h = (r, h, tt)
  append-Owned ordered (q ∷ ps) p o r h = ground (arith, append-Owned ordered ps p)

  pub Owned-find :
      (ordered ps : List (Pair Score)) (k : ℕ) (p : Pair Score)
      → Owned ordered ps
      → find version k ps ≡ some p
      → find version k ordered ≡ some p
  unfolding find
  Owned-find ordered [] k p o h = ground arith
  Owned-find ordered (q ∷ ps) k p o h =
      ground (arith, Owned-find ordered ps k p, find_sound version k ps p)

  pub record Good (ordered : List (Pair Score)) (target : ℕ) (ps : List (Pair Score)) : Type 0 where
    pub distinct : Unique version ps
    pub room : length ps ≤ target
    pub owned : Owned ordered ps

  pub add :
      (ordered : List (Pair Score)) (target : ℕ) (ps : List (Pair Score)) (p : Pair Score)
      → Good ordered target ps
      → is_usable ps p ≡ true
      → length ps < target
      → find version (version p) ordered ≡ some p
      → Good ordered target (ps ++ p ∷ [])
  add ordered target ps p g h l f = record {
    distinct = append-Unique ps p g.distinct (ground arith);
    room = ground (arith, length-append ps (p ∷ []));
    owned = append-Owned ordered ps p g.owned (ground arith) f;
  }

  abbrev pub Listed : List (Pair Score) → List (Pair Score) → Type 0
  Listed ordered [] = Unit
  Listed ordered (p ∷ ps) = (find version (version p) ordered ≡ some p) × Listed ordered ps

  Listed-cons :
      (q : Pair Score) (ordered ps : List (Pair Score))
      → find version (version q) ordered ≡ none
      → Listed ordered ps
      → Listed (q ∷ ordered) ps
  unfolding find
  Listed-cons q ordered [] h l = tt
  Listed-cons q ordered (p ∷ ps) h l = ground (arith, Listed-cons q ordered ps)

  pub Listed-all : (ps : List (Pair Score)) → Unique version ps → Listed ps ps
  unfolding find
  Listed-all [] u = tt
  Listed-all (p ∷ ps) (gone, u) = (ground arith, Listed-cons p ps ps gone (Listed-all ps u))

  pub cover_units-Good :
      (us : List String) (target : ℕ) (ordered ps : List (Pair Score))
      → Unique version ordered
      → Good ordered target ps
      → Good ordered target (cover_units us target ordered ps)
  unfolding cover_units
  cover_units-Good [] target ordered ps u g = g
  cover_units-Good (x ∷ us) target ordered ps u g =
      elim (Option-cases (first (λ p. supports x p && is_usable ps p) ordered)) [
        | inl gone ↦ rw gone (cover_units-Good us target ordered ps u g)
        | inr (p, there) ↦ elim (Bool-cases (ltb (length ps) target)) [
          | inl room ↦
              rw (there, room)
                (cover_units-Good us target ordered (ps ++ p ∷ []) u (
                  add ordered target ps p g
                    (ground (arith, first_sound (λ q. supports x q && is_usable ps q) ordered p))
                    (ground arith)
                    (find-first version (λ q. supports x q && is_usable ps q) ordered p u there)))
          | inr full ↦ rw (there, full) (cover_units-Good us target ordered ps u g)
        ]
      ]

  pub fill-Good :
      (target : ℕ) (ordered rest ps : List (Pair Score))
      → Listed ordered rest
      → Good ordered target ps
      → Good ordered target (fill target rest ps)
  unfolding fill
  fill-Good target ordered [] ps l g = g
  fill-Good target ordered (p ∷ rest) ps (here, l) g = elim (Bool-cases (leb target (length ps))) [
    | inl full ↦ rw full g
    | inr room ↦ elim (Bool-cases (is_usable ps p)) [
      | inl usable ↦
          rw (room, usable)
            (fill-Good target ordered rest (ps ++ p ∷ []) l
              (add ordered target ps p g usable (ground arith) here))
      | inr not_usable ↦ rw (room, not_usable) (fill-Good target ordered rest ps l g)
    ]
  ]
