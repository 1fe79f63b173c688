-- ===== src/Conversation/Projection/Order.antt =====
-- The order and the length of the turns that conversation/policy.py projects.
use legal_chatbot_ueb_demo_s.Prelude.{
  ℕ, suc, ◌+◌, ◌≤◌, ◌<◌, ◌≡◌, refl, true, List, [], ◌∷◌, length, arith,
}
use legal_chatbot_ueb_demo_s.Unicode.{Unicode}
use legal_chatbot_ueb_demo_s.Conversation.State.{Turn, increasing}
use legal_chatbot_ueb_demo_s.Conversation.Snapshots.Loaded.{AreTurns}
use legal_chatbot_ueb_demo_s.Conversation.Policy.Contracts.{ContextTurn, turns_length, ordered}
use legal_chatbot_ueb_demo_s.Conversation.Policy.{reversed_onto}

-- Turns with the newest first, all of them before a bound.
abbrev pub Falling : ℕ → List Turn → Type 0
Falling bound [] = Unit
Falling bound (t ∷ ts) = (t.ordinal < bound) × Falling t.ordinal ts

abbrev pub FallingContext : ℕ → List ContextTurn → Type 0
FallingContext bound [] = Unit
FallingContext bound (t ∷ ts) = (t.ordinal < bound) × FallingContext t.ordinal ts

abbrev pub FallsBefore : List Turn → List Turn → Type 0
FallsBefore [] older = (bound : ℕ) × Falling bound older
FallsBefore (t ∷ ts) older = Falling t.ordinal older

pub nothing_older : (ts : List Turn) → FallsBefore ts []
nothing_older [] = (0, tt)
nothing_older (t ∷ ts) = tt

pub reversed-Falling :
    (ts older : List Turn)
    → increasing ts ≡ true
    → FallsBefore ts older
    → (bound : ℕ) × Falling bound (reversed_onto ts older)
reversed-Falling [] older i f = f
reversed-Falling (t ∷ []) older i f = (suc t.ordinal, (omega arith, f))
reversed-Falling (t ∷ t' ∷ ts) older i f =
    reversed-Falling (t' ∷ ts) (t ∷ older) (ground arith) (ground arith, f)

pub reversed-AreTurns :
    (u : Unicode) (ts older : List Turn)
    → AreTurns u ts
    → AreTurns u older
    → AreTurns u (reversed_onto ts older)
reversed-AreTurns u [] older a b = b
reversed-AreTurns u (t ∷ ts) older a b = reversed-AreTurns u ts (t ∷ older) a.2 (a.0, a.1, b)

pub reversed-length :
    (ts older : List Turn) → length (reversed_onto ts older) ≡ length ts + length older
reversed-length [] older = omega arith
reversed-length (t ∷ ts) older = omega (arith, reversed-length ts (t ∷ older))

pub reversed_context-length :
    (ts older : List ContextTurn) → length (reversed_onto ts older) ≡ length ts + length older
reversed_context-length [] older = omega arith
reversed_context-length (t ∷ ts) older = omega (arith, reversed_context-length ts (t ∷ older))

pub reversed-turns_length :
    (ts older : List ContextTurn)
    → turns_length (reversed_onto ts older) ≡ turns_length ts + turns_length older
unfolding turns_length
reversed-turns_length [] older = omega arith
reversed-turns_length (t ∷ ts) older = omega (arith, reversed-turns_length ts (t ∷ older))

abbrev StartsAt : ℕ → List ContextTurn → Type 0
StartsAt bound [] = Unit
StartsAt bound (t ∷ ts) = bound ≤ t.ordinal

pub reversed-ordered :
    (bound : ℕ) (ts later : List ContextTurn)
    → FallingContext bound ts
    → StartsAt bound later
    → ordered later ≡ true
    → ordered (reversed_onto ts later) ≡ true
reversed-ordered bound [] later f s o = o
reversed-ordered bound (t ∷ ts) [] f s o =
    reversed-ordered t.ordinal ts (t ∷ []) f.1 (omega arith) refl
reversed-ordered bound (t ∷ ts) (t' ∷ later) f s o =
    reversed-ordered t.ordinal ts (t ∷ t' ∷ later) f.1 (omega arith) (ground arith)
