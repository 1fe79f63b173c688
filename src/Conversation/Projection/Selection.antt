-- ===== src/Conversation/Projection/Selection.antt =====
-- The turns that `project_chat_context` of conversation/policy.py selects, the newest first.
use legal_chatbot_ueb_demo_s.Conversation.Projection.Order.{Falling, FallingContext}
use legal_chatbot_ueb_demo_s.Prelude.{
  ℕ, zero, suc, ◌+◌, ◌-◌, ◌≤◌, ◌≡◌, refl, false, List, [], ◌∷◌, leb, length, length-take,
  length-drop, Text, ok, arith, Bool-cases, inl, inr,
}
use legal_chatbot_ueb_demo_s.Unicode.{Unicode, is_blank, normalized}
use legal_chatbot_ueb_demo_s.Unicode.Substrings.{ClosedUnderSubstring, prefix_bound, prefix_visible}
use legal_chatbot_ueb_demo_s.Conversation.State.{Turn}
use legal_chatbot_ueb_demo_s.Conversation.Snapshots.{last_of}
use legal_chatbot_ueb_demo_s.Conversation.Snapshots.Loaded.{IsField, AreTurns}
use legal_chatbot_ueb_demo_s.Conversation.Policy.Contracts.{
  ContextTurn, turns_length, nonblank_field, context_turn,
}
use legal_chatbot_ueb_demo_s.Conversation.Policy.{selected, select_turns}

selected_bound : (remaining : ℕ) (t : Text) → length (selected remaining t) ≤ remaining
selected_bound remaining t = elim (Bool-cases (leb (length t) remaining)) [
  | inl fits ↦ rw fits (ground arith)
  | inr over ↦ rw over (omega (arith, length-take remaining t))
]

visible : (t : Text) → 1 ≤ length t → is_blank t ≡ false
visible [] h = absurd (omega arith)
visible (c ∷ cs) h = refl

sized : (t : Text) → is_blank t ≡ false → 1 ≤ length t
sized [] h = absurd (ground arith)
sized (c ∷ cs) h = omega arith

pub last_visible :
    (left : ℕ) (t : Text) → is_blank t ≡ false → is_blank (last_of (suc left) t) ≡ false
last_visible left t h =
    visible (last_of (suc left) t) (omega (arith, length-drop (length t - suc left) t, sized t h))

-- What the loop over the turns takes fits what remains, and keeps their order.
pub record Selects (u : Unicode) (remaining bound : ℕ) (ts : List Turn) : Type 0 where
  pub chosen : List ContextTurn
  pub left : ℕ
  pub returns : select_turns u remaining ts ≡ ok (chosen, left)
  pub fits : turns_length chosen + left ≤ remaining
  pub falls : FallingContext bound chosen
  pub few : length chosen ≤ length ts

module _ (u : Unicode) (closed : ClosedUnderSubstring u) where
  selected_visible :
      (remaining bound : ℕ) (t : Text)
      → IsField u bound t
      → is_blank (selected (suc remaining) t) ≡ false
  selected_visible remaining bound [] f = absurd (ground (arith, f.1))
  selected_visible remaining bound (c ∷ cs) f = ground arith

  normalized_selected :
      (remaining bound : ℕ) (t : Text)
      → IsField u bound t
      → let t' = selected (suc remaining) t in
        (is_blank (normalized u t') ≡ false)
        × (length (normalized u t') ≤ length t')
        × (length (normalized u t') ≤ bound)
  normalized_selected remaining bound t f = elim (Bool-cases (leb (length t) (suc remaining))) [
    | inl fits ↦ rw fits (rw f.0 (f.1, omega arith, f.2))
    | inr over ↦ rw over (
      prefix_visible u closed remaining t f.0 f.1,
      prefix_bound u closed (suc remaining) t f.0,
      omega
          (arith, prefix_bound u closed (suc remaining) t f.0, length-take (suc remaining) t, f.2),
    )
  ]

  context_turn_lem :
      (remaining : ℕ) (t : Turn)
      → IsField u 4_000 t.text
      → 1 ≤ t.ordinal
      → let t' = selected (suc remaining) t.text in
        context_turn u t.role t' t.ordinal
        ≡ ok (record { role = t.role; text = normalized u t'; ordinal = t.ordinal })
  unfolding context_turn nonblank_field
  context_turn_lem remaining t f o = ground (arith, normalized_selected remaining 4_000 t.text f)

  pub select_turns-Selects :
      (remaining bound : ℕ) (ts : List Turn)
      → AreTurns u ts
      → Falling bound ts
      → Selects u remaining bound ts
  unfolding select_turns turns_length
  select_turns-Selects remaining bound [] a f = record {
    chosen = [];
    left = remaining;
    returns = refl;
    fits = omega arith;
    falls = tt;
    few = omega arith;
  }
  select_turns-Selects zero bound (t ∷ ts) a f = record {
    chosen = [];
    left = 0;
    returns = refl;
    fits = omega arith;
    falls = tt;
    few = omega arith;
  }
  select_turns-Selects (suc remaining) bound (t ∷ ts) a f =
      let t' = selected (suc remaining) t.text in
      let rest = select_turns-Selects (suc remaining - length t') t.ordinal ts a.2 f.1 in
      let sizes = normalized_selected remaining 4_000 t.text a.0 in
      record {
        chosen =
            record { role = t.role; text = normalized u t'; ordinal = t.ordinal } ∷ rest.chosen;
        left = rest.left;
        returns =
            rw
              (
                selected_visible remaining 4_000 t.text a.0,
                context_turn_lem remaining t a.0 a.1,
                rest.returns,
              )
              (ground arith);
        fits = omega (arith, sizes.1, rest.fits, selected_bound (suc remaining) t.text);
        falls = (f.0, rest.falls);
        few = omega (arith, rest.few);
      }
