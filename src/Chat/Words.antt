-- ===== src/Chat/Words.antt =====
-- Tests and rewrites of texts, as the chat uses those of Python's `str` and `re`. What `str.casefold`
-- maps to and what a compiled pattern finds are parameters.
use legal_chatbot_ueb_demo_s.Prelude.{
  ℕ, Bool, true, false, not, ◌&&◌, ◌||◌, List, [], ◌∷◌, ◌==◌, if◌then◌else◌, Text, codes,
}
use legal_chatbot_ueb_demo_s.Unicode.{Unicode, is_blank}
use legal_chatbot_ueb_demo_s.Conversation.Policy.Labels.{join}

-- The patterns of chat/models.py and chat/planner_models.py, by what a search finds.
pub record Patterns : Type 0 where
  pub casefold : Text → Text
  pub url_scheme : Text → Bool
  pub canonical_uuid : Text → Bool
  pub evidence_token : Text → Bool
  -- One of the URL, UUID, metadata, query syntax, instruction and answer prose patterns.
  pub unsafe_item : Text → Bool
  pub protected_identities : Text → List Text

abbrev pub same_text : Text → Text → Bool
same_text [] [] = true
same_text (x ∷ xs) (y ∷ ys) = x == y && same_text xs ys
same_text _ _ = false

abbrev pub starts_with : Text → Text → Bool
starts_with [] text = true
starts_with (p ∷ ps) [] = false
starts_with (p ∷ ps) (c ∷ cs) = p == c && starts_with ps cs

-- `part in text`
unfoldable pub contains_text : Text → Text → Bool
contains_text part [] = is_blank part
contains_text part (c ∷ cs) = starts_with part (c ∷ cs) || contains_text part cs

abbrev pub any {ℓ} : {A : Type ℓ} → (A → Bool) → List A → Bool
any p [] = false
any p (x ∷ xs) = p x || any p xs

abbrev continues : (ℕ → Bool) → Text → Bool
continues space [] = false
continues space (c ∷ cs) = not (space c)

abbrev onto_first : ℕ → List Text → List Text
onto_first c [] = (c ∷ []) ∷ []
onto_first c (word ∷ words) = (c ∷ word) ∷ words

-- `str.split()`
unfoldable pub split_words : (ℕ → Bool) → Text → List Text
split_words space [] = []
split_words space (c ∷ cs) =
    let rest = split_words space cs in
    if space c then rest else if continues space cs then onto_first c rest else (c ∷ []) ∷ rest

-- `normalize_planner_text`
unfoldable pub normalize_planner_text : Unicode → Text → Text
unfolding split_words join
normalize_planner_text u value = join (codes " ") (split_words u.is_space (u.nfc value))

abbrev pub distinct_texts : List Text → Bool
distinct_texts [] = true
distinct_texts (t ∷ ts) = not (any (same_text t) ts) && distinct_texts ts
