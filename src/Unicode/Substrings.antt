-- ===== src/Unicode/Substrings.antt =====
-- Prefixes and suffixes of normalized texts. That `NFC` is idempotent and that a part of a text in
-- this form is in it too is documented in Unicode Standard Annex 15, and is a hypothesis here.
use legal_chatbot_ueb_demo_s.Prelude.{
  ℕ, zero, suc, sym, ap, subst, ◌∙◌, ◌≤◌, ◌≡◌, refl, Bool, true, false, [], ◌∷◌, length, take, drop,
  Text, length-drop, arith, Bool-cases, inl, inr, ◌&&◌,
}
use legal_chatbot_ueb_demo_s.Unicode.{Unicode, is_blank, strip_start, strip_end, strip, normalized}

pub record ClosedUnderSubstring (u : Unicode) : Type 0 where
  pub nfc_nfc : (t : Text) → u.nfc (u.nfc t) ≡ u.nfc t
  pub nfc-take : (n : ℕ) (t : Text) → u.nfc t ≡ t → u.nfc (take n t) ≡ take n t
  pub nfc-drop : (n : ℕ) (t : Text) → u.nfc t ≡ t → u.nfc (drop n t) ≡ drop n t

module _ (space : ℕ → Bool) where
  strip_start-drop : (t : Text) → (n : ℕ) × (strip_start space t ≡ drop n t)
  unfolding strip_start
  strip_start-drop [] = (0, refl)
  strip_start-drop (c ∷ cs) = elim (Bool-cases (space c)) [
    | inl blank ↦ let (n, e) = strip_start-drop cs in (suc n, ground (arith, e))
    | inr other ↦ (0, ground arith)
  ]

  strip_end-take : (t : Text) → (n : ℕ) × (strip_end space t ≡ take n t)
  unfolding strip_end
  strip_end-take [] = (0, refl)
  strip_end-take (c ∷ cs) =
      let (n, e) = strip_end-take cs in
      elim (Bool-cases (is_blank (strip_end space cs) && space c)) [
        | inl blank ↦ (0, ground arith)
        | inr other ↦ (suc n, ground (arith, e))
      ]

  strip_end-strip_end : (t : Text) → strip_end space (strip_end space t) ≡ strip_end space t
  unfolding strip_end
  strip_end-strip_end [] = refl
  strip_end-strip_end (c ∷ cs) = ground (arith, strip_end-strip_end cs)

  -- A text that starts with a space is stripped.
  starts_blank : (c : ℕ) (cs : Text) → space c ≡ true → strip_start space (c ∷ cs) ≡ c ∷ cs → ⊥
  unfolding strip_start
  starts_blank c cs blank h =
      let (n, e) = strip_start-drop cs in
      let tail : strip_start space cs ≡ c ∷ cs = ground arith in
      omega (arith, length-drop n cs, ap (length {A = ℕ}) e, ap (length {A = ℕ}) tail)

  strip_start-strip_end :
      (t : Text)
      → strip_start space t ≡ t
      → strip_start space (strip_end space t) ≡ strip_end space t
  unfolding strip_start strip_end
  strip_start-strip_end [] h = refl
  strip_start-strip_end (c ∷ cs) h = elim (Bool-cases (space c)) [
    | inr other ↦ ground arith
    | inl blank ↦ absurd (starts_blank c cs blank h)
  ]

  strip_start-strip_start :
      (t : Text) → strip_start space (strip_start space t) ≡ strip_start space t
  unfolding strip_start
  strip_start-strip_start [] = refl
  strip_start-strip_start (c ∷ cs) = ground (arith, strip_start-strip_start cs)

  strip-strip : (t : Text) → strip space (strip space t) ≡ strip space t
  strip-strip t =
      rw (strip_start-strip_end (strip_start space t) (strip_start-strip_start t))
        (strip_end-strip_end (strip_start space t))

  -- Stripping only shortens.
  length-strip_start : (t : Text) → length (strip_start space t) ≤ length t
  unfolding strip_start
  length-strip_start [] = omega arith
  length-strip_start (c ∷ cs) = ground (arith, length-strip_start cs)

  length-strip_end : (t : Text) → length (strip_end space t) ≤ length t
  unfolding strip_end
  length-strip_end [] = omega arith
  length-strip_end (c ∷ cs) = ground (arith, length-strip_end cs)

  starts_visible : (c : ℕ) (cs : Text) → strip_start space (c ∷ cs) ≡ c ∷ cs → space c ≡ false
  starts_visible c cs h = elim (Bool-cases (space c)) [
    | inl blank ↦ absurd (starts_blank c cs blank h)
    | inr other ↦ other
  ]

  take_visible :
      (n : ℕ) (t : Text)
      → strip_start space t ≡ t
      → is_blank t ≡ false
      → is_blank (strip space (take (suc n) t)) ≡ false
  unfolding strip_start strip_end
  take_visible n [] h visible = absurd (ground arith)
  take_visible n (c ∷ cs) h visible = ground (arith, starts_visible c cs h)

  drop_stable : (n : ℕ) (t : Text) → strip_end space t ≡ t → strip_end space (drop n t) ≡ drop n t
  unfolding strip_end
  drop_stable zero t h = h
  drop_stable (suc n) [] h = refl
  drop_stable (suc n) (c ∷ cs) h = drop_stable n cs (ground arith)

  -- A text that ends in no space keeps something when its start is stripped.
  ends_visible :
      (t : Text)
      → strip_end space t ≡ t
      → is_blank t ≡ false
      → is_blank (strip_end space (strip_start space t)) ≡ false
  unfolding strip_start strip_end
  ends_visible [] h visible = visible
  ends_visible (c ∷ cs) h visible = elim (Bool-cases (space c)) [
    | inr other ↦ ground arith
    | inl blank ↦ ground (arith, ends_visible cs)
  ]

module _ (u : Unicode) (closed : ClosedUnderSubstring u) where
  stable_nfc : (t : Text) → normalized u t ≡ t → u.nfc t ≡ t
  stable_nfc t h =
      let (n, starts) = strip_start-drop u.is_space (u.nfc t) in
      let (m, ends) = strip_end-take u.is_space (strip_start u.is_space (u.nfc t)) in
      let cut : normalized u t ≡ take m (drop n (u.nfc t)) = ends ∙ ap (take m) starts in
      let kept =
        closed.nfc-take m (drop n (u.nfc t)) (closed.nfc-drop n (u.nfc t) (closed.nfc_nfc t)) in
      let whole : take m (drop n (u.nfc t)) ≡ t = sym cut ∙ h in
      subst (λ t'. u.nfc t' ≡ t') whole kept

  -- A normalized text is normalized already.
  pub normalized-normalized : (t : Text) → normalized u (normalized u t) ≡ normalized u t
  normalized-normalized t =
      let (n, starts) = strip_start-drop u.is_space (u.nfc t) in
      let (m, ends) = strip_end-take u.is_space (strip_start u.is_space (u.nfc t)) in
      let cut : normalized u t ≡ take m (drop n (u.nfc t)) = ends ∙ ap (take m) starts in
      let kept =
        closed.nfc-take m (drop n (u.nfc t)) (closed.nfc-drop n (u.nfc t) (closed.nfc_nfc t)) in
      let nfc_kept : u.nfc (normalized u t) ≡ normalized u t =
        subst (λ t'. u.nfc t' ≡ t') (sym cut) kept in
      ap (strip u.is_space) nfc_kept ∙ strip-strip u.is_space (u.nfc t)

  stable_strip : (t : Text) → normalized u t ≡ t → strip u.is_space t ≡ t
  stable_strip t h = subst (λ x. strip u.is_space x ≡ t) (stable_nfc t h) h

  stable_start : (t : Text) → normalized u t ≡ t → strip_start u.is_space t ≡ t
  stable_start t h =
      let e = stable_strip t h in
      subst (λ x. strip_start u.is_space x ≡ x) e
        (strip_start-strip_end u.is_space (strip_start u.is_space t)
          (strip_start-strip_start u.is_space t))

  stable_end : (t : Text) → normalized u t ≡ t → strip_end u.is_space t ≡ t
  stable_end t h = subst (λ x. strip_end u.is_space x ≡ t) (stable_start t h) (stable_strip t h)

  -- A prefix of a normalized text, normalized, is not longer, and not blank if neither is.
  pub prefix_bound :
      (n : ℕ) (t : Text) → normalized u t ≡ t → length (normalized u (take n t)) ≤ length (take n t)
  prefix_bound n t h = rw (closed.nfc-take n t (stable_nfc t h)) (
      omega (
        arith,
        length-strip_start u.is_space (take n t),
        length-strip_end u.is_space (strip_start u.is_space (take n t)),
      ))

  pub prefix_visible :
      (n : ℕ) (t : Text)
      → normalized u t ≡ t
      → is_blank t ≡ false
      → is_blank (normalized u (take (suc n) t)) ≡ false
  prefix_visible n t h visible =
      rw (closed.nfc-take (suc n) t (stable_nfc t h))
        (take_visible u.is_space n t (stable_start t h) visible)

  pub suffix_bound :
      (n : ℕ) (t : Text) → normalized u t ≡ t → length (normalized u (drop n t)) ≤ length (drop n t)
  suffix_bound n t h = rw (closed.nfc-drop n t (stable_nfc t h)) (
      omega (
        arith,
        length-strip_start u.is_space (drop n t),
        length-strip_end u.is_space (strip_start u.is_space (drop n t)),
      ))

  pub suffix_visible :
      (n : ℕ) (t : Text)
      → normalized u t ≡ t
      → is_blank (drop n t) ≡ false
      → is_blank (normalized u (drop n t)) ≡ false
  suffix_visible n t h visible =
      rw (closed.nfc-drop n t (stable_nfc t h))
        (ends_visible u.is_space (drop n t) (drop_stable u.is_space n t (stable_end t h)) visible)
