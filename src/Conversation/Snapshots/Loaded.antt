-- ===== src/Conversation/Snapshots/Loaded.antt =====
-- What the contracts of conversation/models.py have made sure of in a loaded snapshot.
use legal_chatbot_ueb_demo_s.Prelude.{
  ℕ, zero, suc, subst, ◌+◌, ◌*◌, ◌-◌, ◌/◌, ◌≤◌, ◌≡◌, true, false, Option, none, some, List, [], ◌∷◌,
  ◌++◌, length, drop, Text, ok, arith, Option-cases, Result-cases, inl, inr,
}
use legal_chatbot_ueb_demo_s.Unicode.{Unicode, is_blank, normalized, normalize_safe_text}
use legal_chatbot_ueb_demo_s.Unicode.Substrings.{ClosedUnderSubstring, normalized-normalized}
use legal_chatbot_ueb_demo_s.Conversation.Models.{Settings}
use legal_chatbot_ueb_demo_s.Conversation.Store.{ChatOutcome, ChatReason, Exchange, Conversation}
use legal_chatbot_ueb_demo_s.Conversation.Queries.{require_active_conversation, completed_rows}
use legal_chatbot_ueb_demo_s.Conversation.State.{
  safe_field, safe_optional_field, TurnRole, Turn, conversation_turn, increasing, Reference,
  Snapshot, snapshot_bounds, conversation_snapshot,
}
use legal_chatbot_ueb_demo_s.Conversation.Snapshots.{
  last_of, reversed, all_reference_rows, collect_references, turns_of, turns_of_all,
  snapshot_for_conversation,
}

-- A text that a contract has normalized, within a bound.
abbrev pub IsField : Unicode → ℕ → Text → Type 0
IsField u bound t = (normalized u t ≡ t) × (is_blank t ≡ false) × (length t ≤ bound)

abbrev pub IsOptionalField : Unicode → ℕ → Option Text → Type 0
IsOptionalField u bound none = Unit
IsOptionalField u bound (some t) = IsField u bound t

abbrev pub AreTurns : Unicode → List Turn → Type 0
AreTurns u [] = Unit
AreTurns u (t ∷ ts) = IsField u 4_000 t.text × (1 ≤ t.ordinal) × AreTurns u ts

-- The turns in order and few, and the topic within its bound.
pub record IsLoaded (u : Unicode) (s : Snapshot) : Type 0 where
  pub turns : AreTurns u s.recent_turns
  pub in_order : increasing s.recent_turns ≡ true
  pub few : length s.recent_turns ≤ 4
  pub topic : IsOptionalField u 256 s.active_topic
  pub summary : IsOptionalField u 1_500 s.rolling_summary

AreTurns-append :
    (u : Unicode) (ts ts' : List Turn) → AreTurns u ts → AreTurns u ts' → AreTurns u (ts ++ ts')
AreTurns-append u [] ts' a b = b
AreTurns-append u (t ∷ ts) ts' a b = (a.0, a.1, AreTurns-append u ts ts' a.2 b)

AreTurns-drop : (u : Unicode) (n : ℕ) (ts : List Turn) → AreTurns u ts → AreTurns u (drop n ts)
AreTurns-drop u zero ts a = a
AreTurns-drop u (suc n) [] a = tt
AreTurns-drop u (suc n) (t ∷ ts) a = AreTurns-drop u n ts a.2

module _ (u : Unicode) (closed : ClosedUnderSubstring u) where
  safe_field-IsField : (bound : ℕ) (x t : Text) → safe_field u bound x ≡ ok t → IsField u bound t
  unfolding safe_field normalize_safe_text
  safe_field-IsField bound x t h =
      let kept : normalized u x ≡ t = ground arith in
      (
        subst (λ t'. normalized u t' ≡ t') kept (normalized-normalized u closed x),
        ground arith,
        ground arith,
      )

  safe_optional-IsField :
      (bound : ℕ) (x t : Option Text)
      → safe_optional_field u bound x ≡ ok t
      → IsOptionalField u bound t
  unfolding safe_optional_field
  safe_optional-IsField bound none none h = tt
  safe_optional-IsField bound none (some t) h = absurd (ground arith)
  safe_optional-IsField bound (some x) none h = absurd (ground arith)
  safe_optional-IsField bound (some x) (some t) h = safe_field-IsField bound x t (ground arith)

  turn-IsField :
      (ordinal : ℕ) (role : TurnRole) (text : Text) (outcome : Option ChatOutcome)
      (reason : Option ChatReason) (t : Turn)
      → conversation_turn u ordinal role text outcome reason ≡ ok t
      → IsField u 4_000 t.text × (1 ≤ t.ordinal)
  unfolding conversation_turn
  turn-IsField ordinal role text outcome reason t h =
      elim (Result-cases (safe_field u 4_000 text)) [
        | inr (f, e) ↦ absurd (ground arith)
        | inl (x, e) ↦
            let kept : x ≡ t.text = ground arith in
            (subst (IsField u 4_000) kept (safe_field-IsField 4_000 text x e), ground arith)
      ]

  turns_of-AreTurns : (e : Exchange) (ts : List Turn) → turns_of u e ≡ ok ts → AreTurns u ts
  unfolding turns_of
  turns_of-AreTurns e ts h = elim (Option-cases e.result) [
    | inl gone ↦ absurd (ground arith)
    | inr (r, there) ↦
        elim (Result-cases
          (conversation_turn u (e.ordinal * 2 - 1) TurnRole.user e.user_text none none)) [
            | inr (f, e1) ↦ absurd (ground arith)
            | inl (q, e1) ↦
                elim (Result-cases (
                  conversation_turn u (e.ordinal * 2) TurnRole.assistant r.answer (some r.outcome)
                    (some r.reason))) [
                      | inr (f, e2) ↦ absurd (ground arith)
                      | inl (a, e2) ↦
                          let made : q ∷ a ∷ [] ≡ ts = ground arith in
                          let first =
                            turn-IsField (e.ordinal * 2 - 1) TurnRole.user e.user_text none none q
                              e1 in
                          let second =
                            turn-IsField (e.ordinal * 2) TurnRole.assistant r.answer
                              (some r.outcome) (some r.reason) a e2 in
                          subst (AreTurns u) made (first.0, first.1, (second.0, second.1, tt))
                    ]
          ]
  ]

  turns_of_all-AreTurns :
      (es : List Exchange) (ts : List Turn) → turns_of_all u es ≡ ok ts → AreTurns u ts
  unfolding turns_of_all
  turns_of_all-AreTurns [] [] h = tt
  turns_of_all-AreTurns [] (t ∷ ts) h = absurd (ground arith)
  turns_of_all-AreTurns (e ∷ es) ts h = elim (Result-cases (turns_of u e)) [
    | inr (f, e1) ↦ absurd (ground arith)
    | inl (these, e1) ↦ elim (Result-cases (turns_of_all u es)) [
      | inr (f, e2) ↦ absurd (ground arith)
      | inl (those, e2) ↦
          let made : these ++ those ≡ ts = ground arith in
          subst (AreTurns u) made (
            AreTurns-append u these those (turns_of-AreTurns e these e1)
              (turns_of_all-AreTurns es those e2))
    ]
  ]

  -- `conversation_snapshot` keeps the turns that it is given.
  snapshot-IsLoaded :
      (version : ℕ) (summary topic : Option Text) (ts : List Turn) (references : List Reference)
      (s : Snapshot)
      → AreTurns u ts
      → conversation_snapshot u version summary topic ts references ≡ ok s
      → IsLoaded u s
  unfolding conversation_snapshot snapshot_bounds
  snapshot-IsLoaded version summary topic ts references s a h =
      elim (Result-cases (safe_optional_field u 1_500 summary)) [
        | inr (f, e1) ↦ absurd (ground arith)
        | inl (summary', e1) ↦ elim (Result-cases (safe_optional_field u 256 topic)) [
          | inr (f, e2) ↦ absurd (ground arith)
          | inl (topic', e2) ↦
              let kept : ts ≡ s.recent_turns = ground arith in
              let kept_topic : topic' ≡ s.active_topic = ground arith in
              let kept_summary : summary' ≡ s.rolling_summary = ground arith in
              record {
                turns = subst (AreTurns u) kept a;
                in_order = ground arith;
                few = ground arith;
                topic =
                    subst (IsOptionalField u 256) kept_topic
                      (safe_optional-IsField 256 topic topic' e2);
                summary =
                    subst (IsOptionalField u 1_500) kept_summary
                      (safe_optional-IsField 1_500 summary summary' e1);
              }
        ]
      ]

  pub snapshot_for_conversation-IsLoaded :
      (s : Settings) (conversation : Conversation) (now : ℕ) (es : List Exchange)
      (snapshot : Snapshot)
      → snapshot_for_conversation u s conversation now es ≡ ok snapshot
      → IsLoaded u snapshot
  unfolding snapshot_for_conversation
  snapshot_for_conversation-IsLoaded s conversation now es snapshot h =
      elim (Result-cases (require_active_conversation (some conversation) now)) [
        | inr (f, e1) ↦ absurd (ground arith)
        | inl (c, e1) ↦
            let recent =
              last_of ((s.recent_completed_turn_limit + 1) / 2) (completed_rows c.id es) in
            elim (Result-cases (turns_of_all u recent)) [
              | inr (f, e2) ↦ absurd (ground arith)
              | inl (ts, e2) ↦
                  snapshot-IsLoaded c.state_version c.rolling_summary c.active_topic
                    (last_of s.recent_completed_turn_limit ts)
                    (collect_references s.reference_limit [] [] (
                      all_reference_rows
                        (reversed (last_of s.retained_exchange_limit (completed_rows c.id es)))))
                    snapshot
                    (AreTurns-drop u (length ts - s.recent_completed_turn_limit) ts
                      (turns_of_all-AreTurns recent ts e2))
                    (ground arith)
            ]
      ]
