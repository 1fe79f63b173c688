-- ===== src/Table.antt =====
-- A database table: rows under a numeric primary key, selected and updated the way the repositories
-- do it. `find` is a select by primary key, `first` one by a predicate that a unique index makes
-- single-valued, and `update` the flush of a changed row.
use legal_chatbot_ueb_demo_s.Prelude.{
  ℕ, ◌≡◌, Bool, true, false, Option, none, some, List, [], ◌∷◌, arith, ◌==◌, Option-cases, inl, inr,
  if◌then◌else◌,
}

abbrev pub is_some {ℓ} : {A : Type ℓ} → Option A → Bool
is_some none = false
is_some (some a) = true

module _ {R : Type 0} where
  unfoldable pub first : (R → Bool) → List R → Option R
  first p [] = none
  first p (r ∷ rs) = if p r then some r else first p rs

  -- A row that a select returns satisfies its predicate.
  pub first_sound : (p : R → Bool) (rs : List R) (r : R) → first p rs ≡ some r → p r ≡ true
  unfolding first
  first_sound p [] r h = ground arith
  first_sound p (x ∷ rs) r h = ground (arith, first_sound p rs r)

  -- `select ... limit 1` is not null.
  abbrev pub exists : (R → Bool) → List R → Bool
  exists p rs = is_some (first p rs)

module _ {R : Type 0} where
  -- The rows that a delete leaves.
  unfoldable pub filter : (R → Bool) → List R → List R
  filter p [] = []
  filter p (r ∷ rs) = let rest = filter p rs in if p r then r ∷ rest else rest

abbrev pub member : ℕ → List ℕ → Bool
member k [] = false
member k (x ∷ xs) = if x == k then true else member k xs

-- SQL's `=` on nullable columns.
abbrev pub same : Option ℕ → Option ℕ → Bool
same (some a) (some b) = a == b
same _ _ = false

module _ {R : Type 0} (key : R → ℕ) where
  unfoldable pub find : ℕ → List R → Option R
  find k [] = none
  find k (r ∷ rs) = if key r == k then some r else find k rs

  unfoldable pub update : R → List R → List R
  update r [] = []
  update r (x ∷ xs) = if key x == key r then r ∷ xs else x ∷ update r xs

  -- The primary key constraint.
  abbrev pub Unique : List R → Type 0
  Unique [] = Unit
  Unique (r ∷ rs) = (find (key r) rs ≡ none) × Unique rs

  pub find_sound : (k : ℕ) (rs : List R) (r : R) → find k rs ≡ some r → key r ≡ k
  unfolding find
  find_sound k [] r h = ground arith
  find_sound k (x ∷ rs) r h = ground (arith, find_sound k rs r)

  pub find-update :
      (k : ℕ) (r : R) (rs : List R)
      → find k (update r rs)
        ≡ (if key r == k then (if is_some (find k rs) then some r else none) else find k rs)
  unfolding find update
  find-update k r [] = ground arith
  find-update k r (x ∷ rs) = ground (arith, find-update k r rs)

  pub update-Unique : (r : R) (rs : List R) → Unique rs → Unique (update r rs)
  unfolding update
  update-Unique r [] u = tt
  update-Unique r (x ∷ rs) u = ground (arith, find-update (key x) r rs, update-Unique r rs)

  filter-none :
      (p : R → Bool) (k : ℕ) (rs : List R) → find k rs ≡ none → find k (filter p rs) ≡ none
  unfolding find filter
  filter-none p k [] h = ground arith
  filter-none p k (x ∷ rs) h = ground (arith, filter-none p k rs)

  pub filter-Unique : (p : R → Bool) (rs : List R) → Unique rs → Unique (filter p rs)
  unfolding filter
  filter-Unique p [] u = tt
  filter-Unique p (x ∷ rs) u = ground (arith, filter-none p (key x) rs, filter-Unique p rs)

  -- A row that is left was there, and is one that the delete spares.
  pub find-filter :
      (p : R → Bool) (rs : List R) (k : ℕ) (r : R)
      → Unique rs
      → find k (filter p rs) ≡ some r
      → (find k rs ≡ some r) × (p r ≡ true)
  unfolding find filter
  find-filter p [] k r u h = absurd (ground arith)
  find-filter p (x ∷ rs) k r u h = ground (arith, find-filter p rs k r)

  -- What a select by another index returns is the row of its own primary key.
  pub find-first :
      (p : R → Bool) (rs : List R) (r : R)
      → Unique rs
      → first p rs ≡ some r
      → find (key r) rs ≡ some r
  unfolding find first
  find-first p [] r u h = ground arith
  find-first p (x ∷ rs) r u h = ground (arith, find-first p rs r, find_sound (key r) rs r)

  pub first-none :
      (p : R → Bool) (rs : List R) (k : ℕ) (r : R)
      → first p rs ≡ none
      → find k rs ≡ some r
      → p r ≡ false
  unfolding find first
  first-none p [] k r h e = ground arith
  first-none p (x ∷ rs) k r h e = ground (arith, first-none p rs k r)

  abbrev pub replace : R → Option R → Option R
  replace r none = none
  replace r (some x) = if key x == key r then some r else some x

  -- A flush that keeps an indexed column shows in a select by that index as the new row.
  pub first-update :
      (p : R → Bool) (r r' : R) (rs : List R)
      → Unique rs
      → find (key r) rs ≡ some r'
      → p r ≡ p r'
      → first p (update r rs) ≡ replace r (first p rs)
  unfolding first find update
  first-update p r r' [] u h e = ground arith
  first-update p r r' (x ∷ rs) u h e = elim (Option-cases (first p rs)) [
    | inl gone ↦ ground (arith, first-update p r r' rs)
    | inr (y, there) ↦ ground (arith, first-update p r r' rs, find-first p rs y)
  ]
