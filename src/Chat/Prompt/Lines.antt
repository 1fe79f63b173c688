-- ===== src/Chat/Prompt/Lines.antt =====
-- The lines of the prompt of chat/prompt.py: what is not trusted stays within its lines.
use legal_chatbot_ueb_demo_s.Prelude.{
  ℕ, zero, suc, ◌+◌, ◌-◌, ◌*◌, ◌/◌, ◌≡◌, refl, Bool, true, not, ◌&&◌, Option, none, some, List, [],
  ◌∷◌, ◌++◌, ◌==◌, if◌then◌else◌, all, Text, codes, arith, Bool-cases, inl, inr,
}
use legal_chatbot_ueb_demo_s.Conversation.Policy.Contracts.{Context, ContextTurn}
use legal_chatbot_ueb_demo_s.Conversation.Policy.Labels.{join, decimal, decimal_onto}
use legal_chatbot_ueb_demo_s.Chat.Retrieved.{GroundingExcerpt}
use legal_chatbot_ueb_demo_s.Chat.Prompt.{
  role_value, escaped, escape_char, seal, seal_char, json_string, json_optional, question_json,
  evidence_items, evidence_json, turn_items, conversation_context_json,
}

abbrev pub onto_line : ℕ → List Text → List Text
onto_line c [] = (c ∷ []) ∷ []
onto_line c (line ∷ lines) = (c ∷ line) ∷ lines

-- The lines of a text.
unfoldable pub lines_of : Text → List Text
lines_of [] = [] ∷ []
lines_of (c ∷ cs) = let rest = lines_of cs in if c == 10 then [] ∷ rest else onto_line c rest

onto_line-append :
    (c : ℕ) (xs ys : List Text) (x : Text)
    → onto_line c ((x ∷ xs) ++ ys) ≡ onto_line c (x ∷ xs) ++ ys
onto_line-append c xs ys x = refl

lines_of-first : (t : Text) → (x : Text) × (xs : List Text) × (lines_of t ≡ x ∷ xs)
unfolding lines_of
lines_of-first [] = ([], [], refl)
lines_of-first (c ∷ cs) = elim (Bool-cases (c == 10)) [
  | inl e ↦ ([], lines_of cs, ground (arith, e))
  | inr e ↦ let (x, xs, h) = lines_of-first cs in (c ∷ x, xs, ground (arith, e, h))
]

-- A line break ends the lines before it.
pub lines_of-break : (xs ys : Text) → lines_of (xs ++ (10 ∷ ys)) ≡ lines_of xs ++ lines_of ys
unfolding lines_of
lines_of-break [] ys = refl
lines_of-break (c ∷ cs) ys = elim (Bool-cases (c == 10)) [
  | inl e ↦ ground (arith, e, lines_of-break cs ys)
  | inr e ↦ let (x, xs, h) = lines_of-first cs in ground (arith, e, h, lines_of-break cs ys)
]

-- Neither a line break nor a mark of a delimiter.
abbrev pub sealed_char : ℕ → Bool
sealed_char c = not (c == 10) && not (c == b'<') && not (c == b'>') && not (c == b'&')

abbrev pub IsSealed : Text → Type 0
IsSealed t = all sealed_char t ≡ true

pub lines_of-IsSealed : (t : Text) → IsSealed t → lines_of t ≡ t ∷ []
unfolding lines_of
lines_of-IsSealed [] h = refl
lines_of-IsSealed (c ∷ cs) h = ground (arith, lines_of-IsSealed cs)

all-append :
    (p : ℕ → Bool) (xs ys : Text) → all p xs ≡ true → all p ys ≡ true → all p (xs ++ ys) ≡ true
all-append p [] ys h k = k
all-append p (x ∷ xs) ys h k = ground (arith, all-append p xs ys)

abbrev one_line : ℕ → Bool
one_line c = not (c == 10)

seal_char-IsSealed : (c : ℕ) → one_line c ≡ true → IsSealed (seal_char c)
unfolding seal_char
seal_char-IsSealed c h = ground arith

seal-IsSealed : (t : Text) → all one_line t ≡ true → IsSealed (seal t)
unfolding seal
seal-IsSealed [] h = refl
seal-IsSealed (c ∷ cs) h =
    all-append sealed_char (seal_char c) (seal cs) (seal_char-IsSealed c (ground arith))
      (seal-IsSealed cs (ground arith))

escape_char-one_line : (c : ℕ) → all one_line (escape_char c) ≡ true
unfolding escape_char
escape_char-one_line c = ground arith

escaped-one_line : (t : Text) → all one_line (escaped t) ≡ true
unfolding escaped
escaped-one_line [] = refl
escaped-one_line (c ∷ cs) =
    all-append one_line (escape_char c) (escaped cs) (escape_char-one_line c) (escaped-one_line cs)

json_string-one_line : (t : Text) → all one_line (json_string t) ≡ true
json_string-one_line t = all-append one_line (escaped t) (b'"' ∷ []) (escaped-one_line t) refl

json_optional-one_line : (t : Option Text) → all one_line (json_optional t) ≡ true
json_optional-one_line none = refl
json_optional-one_line (some t) = json_string-one_line t

decimal_onto-one_line :
    (fuel n : ℕ) (digits : Text)
    → all one_line digits ≡ true
    → all one_line (decimal_onto fuel n digits) ≡ true
unfolding decimal_onto
decimal_onto-one_line zero n digits h = h
decimal_onto-one_line (suc fuel) n digits h =
    let last = b'0' + (n - n / 10 * 10) in
    let more : all one_line (last ∷ digits) ≡ true = ground (arith, h) in
    let rest = decimal_onto-one_line fuel (n / 10) (last ∷ digits) more in
    ground (arith, more, rest)

abbrev AllOneLine : List Text → Type 0
AllOneLine [] = Unit
AllOneLine (x ∷ xs) = (all one_line x ≡ true) × AllOneLine xs

join-one_line : (xs : List Text) → AllOneLine xs → all one_line (join (codes ",") xs) ≡ true
unfolding join
join-one_line [] h = refl
join-one_line (x ∷ []) h = h.0
join-one_line (x ∷ y ∷ xs) h =
    all-append one_line x (codes "," ++ join (codes ",") (y ∷ xs)) h.0 (
      all-append one_line (codes ",") (join (codes ",") (y ∷ xs)) refl (join-one_line (y ∷ xs) h.1))

-- Texts on one line, one after the other.
abbrev OneLine : Type 0
OneLine = (t : Text) × (all one_line t ≡ true)

infixr 4 ◌then◌
abbrev ◌then◌ : OneLine → OneLine → OneLine
x then y = (x.0 ++ y.0, all-append one_line x.0 y.0 x.1 y.1)

abbrev quoted : Text → OneLine
quoted t = (json_string t, json_string-one_line t)

abbrev optional : Option Text → OneLine
optional t = (json_optional t, json_optional-one_line t)

evidence_items-one_line : (n : ℕ) (es : List GroundingExcerpt) → AllOneLine (evidence_items n es)
unfolding evidence_items
evidence_items-one_line n [] = tt
evidence_items-one_line n (e ∷ es) = (
  ((codes "{\"id\":", refl)
      then quoted (codes "E" ++ decimal n)
      then (codes ",\"text\":", refl)
      then quoted e.text
      then (codes "}", refl)).1,
  evidence_items-one_line (suc n) es,
)

turn_items-one_line : (ts : List ContextTurn) → AllOneLine (turn_items ts)
unfolding turn_items
turn_items-one_line [] = tt
turn_items-one_line (t ∷ ts) = (
  ((codes "{\"ordinal\":", refl)
      then (decimal t.ordinal, decimal_onto-one_line (suc t.ordinal) t.ordinal [] refl)
      then (codes ",\"role\":", refl)
      then quoted (role_value t.role)
      then (codes ",\"text\":", refl)
      then quoted t.text
      then (codes "}", refl)).1,
  turn_items-one_line ts,
)

abbrev listed : (xs : List Text) → AllOneLine xs → OneLine
listed xs h = (join (codes ",") xs, join-one_line xs h)

pub question_json-IsSealed : (question : Text) → IsSealed (question_json question)
unfolding question_json
question_json-IsSealed question =
    let line : OneLine =
      (codes "{\"question\":", refl) then quoted question then (codes "}", refl) in
    seal-IsSealed line.0 line.1

pub evidence_json-IsSealed : (es : List GroundingExcerpt) → IsSealed (evidence_json es)
unfolding evidence_json
evidence_json-IsSealed es =
    let line : OneLine =
      (codes "[", refl)
      then listed (evidence_items 1 es) (evidence_items-one_line 1 es)
      then (codes "]", refl) in
    seal-IsSealed line.0 line.1

pub conversation_context_json-IsSealed : (c : Context) → IsSealed (conversation_context_json c)
unfolding conversation_context_json
conversation_context_json-IsSealed c =
    let line : OneLine =
      (codes "{\"active_topic\":", refl)
      then optional c.active_topic
      then (codes ",\"recent_turns\":[", refl)
      then listed (turn_items c.recent_turns) (turn_items-one_line c.recent_turns)
      then (codes "],\"rolling_summary\":", refl)
      then optional c.rolling_summary
      then (codes "}", refl) in
    seal-IsSealed line.0 line.1
