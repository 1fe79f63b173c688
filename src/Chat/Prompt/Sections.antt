-- ===== src/Chat/Prompt/Sections.antt =====
-- The sections of the prompt of chat/prompt.py, line by line, and its bound.
use legal_chatbot_ueb_demo_s.Prelude.{
  ◌+◌, ◌≤◌, ◌≡◌, refl, sym, ap, subst, ◌∙◌, ◌&&◌, Option, none, some, List, [], ◌∷◌, ◌++◌, leb,
  length, Text, codes, ok, arith, Bool-cases, inl, inr, length-append,
}
use legal_chatbot_ueb_demo_s.Conversation.Policy.Contracts.{Context, ChatRequest, context_length}
use legal_chatbot_ueb_demo_s.Conversation.Policy.Labels.{join}
use legal_chatbot_ueb_demo_s.Chat.Retrieved.{GroundingEvidence}
use legal_chatbot_ueb_demo_s.Chat.Planner.{ChatSettings}
use legal_chatbot_ueb_demo_s.Chat.Prompt.{
  policy, policy_start, policy_end, question_start, question_end, evidence_start, evidence_end,
  context_start, context_end, context_notice, question_json, evidence_json,
  conversation_context_json, context_section, prompt_of, with_context, build_grounded_prompt,
}
use legal_chatbot_ueb_demo_s.Chat.Prompt.Lines.{
  lines_of, lines_of-break, IsSealed, lines_of-IsSealed, question_json-IsSealed,
  evidence_json-IsSealed, conversation_context_json-IsSealed,
}

-- The lines of all texts, one after the other.
abbrev all_lines : List Text → List Text
all_lines [] = []
all_lines (x ∷ []) = lines_of x
all_lines (x ∷ y ∷ xs) = lines_of x ++ all_lines (y ∷ xs)

lines_of-join :
    (x : Text) (xs : List Text) → lines_of (join (codes "\n") (x ∷ xs)) ≡ all_lines (x ∷ xs)
unfolding join
lines_of-join x [] = refl
lines_of-join x (y ∷ xs) =
    lines_of-break x (join (codes "\n") (y ∷ xs)) ∙ ap (λ ls. lines_of x ++ ls) (lines_of-join y xs)

abbrev pub fixed_lines : Text → Text → List Text
fixed_lines question evidence =
    policy_start
    ∷ (lines_of policy
        ++ (policy_end ∷ question_start ∷ question ∷ question_end ∷ evidence_start ∷ evidence
            ∷ evidence_end ∷ []))

abbrev pub context_lines : Option Text → List Text
context_lines none = []
context_lines (some json) = context_start ∷ context_notice ∷ json ∷ context_end ∷ []

abbrev pub IsSealedOption : Option Text → Type 0
IsSealedOption none = Unit
IsSealedOption (some t) = IsSealed t

-- A prompt within the bound, whose lines are the fixed ones, and one line each of the question, the
-- evidence and, if there is one, the context, which have no mark of a delimiter.
pub record IsPrompt (s : ChatSettings) (request : ChatRequest) (g : GroundingEvidence)
    (prompt : Text) : Type 0 where
  pub context : Option Text
  pub lines :
      lines_of prompt
      ≡ fixed_lines (question_json request.question) (evidence_json g.excerpts)
        ++ context_lines context
  pub sealed_question : IsSealed (question_json request.question)
  pub sealed_evidence : IsSealed (evidence_json g.excerpts)
  pub sealed_context : IsSealedOption context
  pub short : length prompt ≤ s.prompt_max_chars

prompt_of-lines :
    (question evidence : Text)
    → IsSealed question
    → IsSealed evidence
    → lines_of (prompt_of question evidence) ≡ fixed_lines question evidence
unfolding join lines_of
prompt_of-lines question evidence q e =
    lines_of-join policy_start (
      policy ∷ policy_end ∷ question_start ∷ question ∷ question_end ∷ evidence_start ∷ evidence
      ∷ evidence_end ∷ [])
    ∙ rw (lines_of-IsSealed question q, lines_of-IsSealed evidence e) refl

context_section-lines :
    (json : Text) → IsSealed json → lines_of (context_section json) ≡ context_lines (some json)
unfolding join lines_of
context_section-lines json h =
    lines_of-join context_start (context_notice ∷ json ∷ context_end ∷ [])
    ∙ rw (lines_of-IsSealed json h) refl

append_nothing : (xs : List Text) → xs ++ [] ≡ xs
append_nothing [] = refl
append_nothing (x ∷ xs) = ap (λ ys. x ∷ ys) (append_nothing xs)

alone-IsPrompt :
    (s : ChatSettings) (request : ChatRequest) (g : GroundingEvidence) (prompt : Text)
    → lines_of prompt ≡ fixed_lines (question_json request.question) (evidence_json g.excerpts)
    → length prompt ≤ s.prompt_max_chars
    → IsPrompt s request g prompt
alone-IsPrompt s request g prompt h short = record {
  context = none;
  lines = rw h (
      sym
        (append_nothing (fixed_lines (question_json request.question) (evidence_json g.excerpts))));
  sealed_question = question_json-IsSealed request.question;
  sealed_evidence = evidence_json-IsSealed g.excerpts;
  sealed_context = tt;
  short = short;
}

with_context-IsPrompt :
    (s : ChatSettings) (request : ChatRequest) (g : GroundingEvidence) (context : Option Context)
    (prompt : Text)
    → lines_of prompt ≡ fixed_lines (question_json request.question) (evidence_json g.excerpts)
    → length prompt ≤ s.prompt_max_chars
    → IsPrompt s request g (with_context s context prompt)
unfolding with_context
with_context-IsPrompt s request g none prompt h short = alone-IsPrompt s request g prompt h short
with_context-IsPrompt s request g (some c) prompt h short =
    elim (Bool-cases (
      leb (context_length c.rolling_summary c.active_topic c.recent_turns)
        s.conversation_context_max_chars
      && leb (length (conversation_context_json c)) s.conversation_context_max_chars
      && leb (length prompt + 1 + length (context_section (conversation_context_json c)))
          s.prompt_max_chars)) [
            | inl fits ↦
                let section = context_section (conversation_context_json c) in
                let sealed = conversation_context_json-IsSealed c in
                rw fits (record {
                  context = some (conversation_context_json c);
                  lines =
                      lines_of-break prompt section
                      ∙ rw (h, context_section-lines (conversation_context_json c) sealed) refl;
                  sealed_question = question_json-IsSealed request.question;
                  sealed_evidence = evidence_json-IsSealed g.excerpts;
                  sealed_context = sealed;
                  short = ground (arith, length-append prompt (10 ∷ section), fits);
                })
            | inr long ↦ rw long (alone-IsPrompt s request g prompt h short)
          ]

-- A prompt that is built is within the bound, and its lines are the fixed ones and those of the
-- question, the evidence and, if there is one, the context, each in its place; these have neither a
-- line break nor a mark of a delimiter, whatever the texts are.
pub build_grounded_prompt-IsPrompt :
    (request : ChatRequest) (g : GroundingEvidence) (s : ChatSettings) (prompt : Text)
    → build_grounded_prompt request g s ≡ ok prompt
    → IsPrompt s request g prompt
unfolding build_grounded_prompt
build_grounded_prompt-IsPrompt request g s prompt h =
    let base = prompt_of (question_json request.question) (evidence_json g.excerpts) in
    elim (Bool-cases (leb (length base) s.prompt_max_chars)) [
      | inr long ↦ absurd (ground (arith, long))
      | inl short ↦
          let made : with_context s request.conversation_context base ≡ prompt =
            ground (arith, short) in
          subst (IsPrompt s request g) made (
            with_context-IsPrompt s request g request.conversation_context base
              (prompt_of-lines (question_json request.question) (evidence_json g.excerpts)
                (question_json-IsSealed request.question) (evidence_json-IsSealed g.excerpts))
              (ground (arith, short)))
    ]
