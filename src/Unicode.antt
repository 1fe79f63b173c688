-- ===== src/Unicode.antt =====
-- The text normalisers of channels/models.py and conversation/models.py. The tables of `unicodedata`
-- are a parameter: the composition `NFC`, the characters that `str.strip` removes, and the
-- characters whose category starts with `C`.
pub mod Substrings
use legal_chatbot_ueb_demo_s.Prelude.{
  ℕ, Bool, true, false, not, ◌&&◌, ◌||◌, Option, none, some, [], ◌∷◌, ◌==◌, if◌then◌else◌, Text,
  all, ◌≡◌, arith, Bool-cases, inl, inr,
}

pub record Unicode : Type 0 where
  pub nfc : Text → Text
  pub is_space : ℕ → Bool
  pub is_control : ℕ → Bool

abbrev pub newline : ℕ
newline = 10

abbrev pub is_blank : Text → Bool
is_blank [] = true
is_blank (c ∷ cs) = false

abbrev pub contains_char : ℕ → Text → Bool
contains_char c [] = false
contains_char c (x ∷ xs) = if x == c then true else contains_char c xs

unfoldable pub strip_start : (ℕ → Bool) → Text → Text
strip_start space [] = []
strip_start space (c ∷ cs) = if space c then strip_start space cs else c ∷ cs

unfoldable pub strip_end : (ℕ → Bool) → Text → Text
strip_end space [] = []
strip_end space (c ∷ cs) =
    let rest = strip_end space cs in if is_blank rest && space c then [] else c ∷ rest

-- `str.strip`
abbrev pub strip : (ℕ → Bool) → Text → Text
strip space text = strip_end space (strip_start space text)

module _ (u : Unicode) where
  -- `normalize("NFC", value).strip()`
  abbrev pub normalized : Text → Text
  normalized text = strip u.is_space (u.nfc text)

  -- `_normalize_safe_text` of conversation/models.py, with what it returns or `none` for its error.
  unfoldable pub normalize_safe_text : Text → Option Text
  normalize_safe_text text =
      let t = normalized text in
      if is_blank t || not (all (λ c. not (u.is_control c)) t) then none else some t

  -- `_normalize_formatted_reply_text` of channels/models.py.
  unfoldable pub normalize_formatted_reply_text : Text → Option Text
  normalize_formatted_reply_text text =
      let t = normalized text in
      if is_blank t || not (all (λ c. not (u.is_control c && not (c == newline))) t)
      then none
      else some t

  pub has_control :
      (t : Text)
      → u.is_control newline ≡ true
      → contains_char newline t ≡ true
      → all (λ c. not (u.is_control c)) t ≡ false
  has_control [] k h = ground arith
  has_control (c ∷ cs) k h = elim (Bool-cases (c == newline)) [
    | inl here ↦
        let same : c ≡ newline = ground arith in
        let refused : u.is_control c ≡ true = rw same k in ground (arith, refused)
    | inr there ↦ ground (arith, has_control cs)
  ]

  -- A text with a line break that is already normalized is not accepted as conversation text.
  pub multiline_unsafe :
      (t : Text)
      → u.is_control newline ≡ true
      → normalized t ≡ t
      → contains_char newline t ≡ true
      → normalize_safe_text t ≡ none
  unfolding normalize_safe_text
  multiline_unsafe t k stable h = ground (arith, stable, has_control t k h)
