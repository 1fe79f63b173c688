-- ===== src/Conversation/Projection.antt =====
-- The projection of conversation/policy.py: a snapshot fits the limit of the context.
mod Selection
mod Order
use legal_chatbot_ueb_demo_s.Conversation.Projection.Order.{
  nothing_older, reversed-Falling, reversed-AreTurns, reversed-length, reversed_context-length,
  reversed-turns_length, reversed-ordered,
}
use legal_chatbot_ueb_demo_s.Conversation.Projection.Selection.{last_visible, select_turns-Selects}
use legal_chatbot_ueb_demo_s.Prelude.{
  ℕ, zero, suc, sym, ap, subst, ◌∙◌, ◌+◌, ◌-◌, ◌≤◌, ◌<◌, ◌≡◌, refl, Bool, true, false, not, ◌&&◌,
  ◌||◌, Option, none, some, List, [], ◌∷◌, ltb, leb, ◌==◌, length, take, drop, length-take,
  length-drop, Text, Result, ok, err, arith, Bool-cases, Option-cases, Result-cases, inl, inr, ◌⊎◌,
  if◌then◌else◌, min,
}
use legal_chatbot_ueb_demo_s.Unicode.{Unicode, is_blank, normalized, normalize_safe_text}
use legal_chatbot_ueb_demo_s.Unicode.Substrings.{
  ClosedUnderSubstring, normalized-normalized, prefix_bound, prefix_visible, suffix_bound,
  suffix_visible,
}
use legal_chatbot_ueb_demo_s.Conversation.Models.{Settings}
use legal_chatbot_ueb_demo_s.Conversation.Store.{Fault, validation_error, Conversation, Exchange}
use legal_chatbot_ueb_demo_s.Conversation.State.{TurnRole, Turn, Snapshot, increasing}
use legal_chatbot_ueb_demo_s.Conversation.Snapshots.{last_of, snapshot_for_conversation}
use legal_chatbot_ueb_demo_s.Conversation.Snapshots.Loaded.{
  snapshot_for_conversation-IsLoaded, IsField, IsOptionalField, AreTurns,
}
use legal_chatbot_ueb_demo_s.Conversation.Policy.Contracts.{
  ContextTurn, Context, option_length, turns_length, context_length, ordered, nonblank_field,
  nonblank_optional, context_turn, conversation_context,
}
use legal_chatbot_ueb_demo_s.Conversation.Policy.Labels.{safe_optional_summary, normalize_bounded}
use legal_chatbot_ueb_demo_s.Conversation.Policy.{
  selected, select_turns, projected_summary, is_none, no_turns, reversed_onto, project_within,
  project_chat_context,
}

module _ (u : Unicode) (closed : ClosedUnderSubstring u) where
  -- An optional field that another contract has normalized is accepted with the same bound.
  nonblank_lem :
      (bound : ℕ) (t : Option Text) → IsOptionalField u bound t → nonblank_optional u bound t ≡ ok t
  unfolding nonblank_optional nonblank_field
  nonblank_lem bound none f = refl
  nonblank_lem bound (some t) f = ground (arith, f)

  normalized_optional : Option Text → Option Text
  normalized_optional none = none
  normalized_optional (some t) = some (normalized u t)

  -- The end of a summary that the policy has accepted fits what remains, and is accepted.
  summary_lem :
      (left : ℕ) (summary : Option Text)
      → IsOptionalField u 1_500 summary
      → let t = projected_summary left summary in
        (nonblank_optional u 1_500 t ≡ ok (normalized_optional t))
        × (option_length (normalized_optional t) ≤ left)
  unfolding nonblank_optional nonblank_field normalized_optional
  summary_lem left none f = (refl, omega arith)
  summary_lem zero (some t) f = (refl, omega arith)
  summary_lem (suc left) (some t) f =
      let n = length t - suc left in
      let shorter = suffix_bound u closed n t f.0 in
      let seen = suffix_visible u closed n t f.0 (last_visible left t f.1) in
      (
        ground (arith, shorter, seen, length-drop n t, f.2),
        ground (arith, shorter, seen, length-drop n t, f.2),
      )

  safe_summary_lem :
      (summary chosen : Option Text)
      → safe_optional_summary u summary ≡ ok chosen
      → IsOptionalField u 1_500 chosen
  unfolding safe_optional_summary normalize_bounded normalize_safe_text
  safe_summary_lem none none h = tt
  safe_summary_lem none (some t) h = absurd (ground arith)
  safe_summary_lem (some x) none h = absurd (ground arith)
  safe_summary_lem (some x) (some t) h =
      let kept : normalized u x ≡ t = ground arith in
      (
        subst (λ t'. normalized u t' ≡ t') kept (normalized-normalized u closed x),
        ground arith,
        ground arith,
      )

  -- The context is within the limit, and keeps the topic; there is none only without a topic.
  abbrev pub Fits : ℕ → Option Text → Option Context → Type 0
  Fits limit topic none = topic ≡ none
  Fits limit topic (some c) =
      (c.active_topic ≡ topic)
      × (context_length c.rolling_summary c.active_topic c.recent_turns ≤ limit)

  context_lem :
      (given s topic : Option Text) (turns : List ContextTurn)
      → nonblank_optional u 1_500 given ≡ ok s
      → IsOptionalField u 256 topic
      → length turns ≤ 4
      → ordered turns ≡ true
      → context_length s topic turns ≤ 1_000
      → conversation_context u given topic turns
        ≡ ok (record { rolling_summary = s; active_topic = topic; recent_turns = turns })
  unfolding conversation_context
  context_lem given s topic turns accepted ft few in_order small =
      let t = nonblank_lem 256 topic ft in ground (arith, accepted, t)

  is_none_eq : (topic : Option Text) → is_none topic ≡ true → topic ≡ none
  is_none_eq none h = refl
  is_none_eq (some t) h = absurd (ground arith)

  project_within_lem :
      (limit remaining : ℕ) (topic summary accepted : Option Text) (ts : List Turn)
      → AreTurns u ts
      → increasing ts ≡ true
      → length ts ≤ 4
      → IsOptionalField u 256 topic
      → option_length topic + remaining ≤ limit
      → limit ≤ 1_000
      → safe_optional_summary u summary ≡ ok accepted
      → (c : Option Context) × (project_within u remaining topic ts summary ≡ ok c)
        × Fits limit topic c
  unfolding project_within context_length turns_length
  project_within_lem limit remaining topic summary accepted ts a i few ft fits small h =
      let (bound, falls) = reversed-Falling ts [] i (nothing_older ts) in
      let newest = reversed_onto ts [] in
      let picks =
        select_turns-Selects u closed remaining bound newest (reversed-AreTurns u ts [] a tt)
          falls in
      let given = projected_summary picks.left accepted in
      let short = summary_lem picks.left accepted (safe_summary_lem summary accepted h) in
      let s = normalized_optional given in
      let turns = reversed_onto picks.chosen [] in
      let size : context_length s topic turns ≤ limit =
        omega (arith, short.1, picks.fits, reversed-turns_length picks.chosen []) in
      let made =
        context_lem given s topic turns short.0 ft
          (omega (arith, picks.few, reversed-length ts [], reversed_context-length picks.chosen []))
          (reversed-ordered bound picks.chosen [] picks.falls tt refl) (omega (arith, size)) in
      elim (Bool-cases (is_none topic && no_turns picks.chosen && is_none given)) [
        | inl nothing ↦ (none, rw (picks.returns, h, nothing) refl, is_none_eq topic (ground arith))
        | inr something ↦ (
          some (record { rolling_summary = s; active_topic = topic; recent_turns = turns }),
          rw (picks.returns, h, something, made) refl,
          (refl, size),
        )
      ]

  abbrev pub Projects : ℕ → Option Text → Option Context → Type 0
  Projects limit topic none = (topic ≡ none) ⊎ (limit < option_length topic)
  Projects limit topic (some c) =
      (c.active_topic ≡ topic)
      × (context_length c.rolling_summary c.active_topic c.recent_turns ≤ limit)

  Fits-Projects :
      (limit : ℕ) (topic : Option Text) (c : Option Context)
      → Fits limit topic c
      → Projects limit topic c
  Fits-Projects limit topic none f = inl f
  Fits-Projects limit topic (some c) f = f

  -- The projection of a loaded snapshot raises nothing for a summary that the policy accepts, under a
  -- context limit of at most 1000: the context is within the limit and keeps the topic whole, and there
  -- is none only without a topic or for one that alone is over the limit.
  pub project_fits :
      (s : Settings) (conversation : Conversation) (now : ℕ) (es : List Exchange)
      (snapshot : Snapshot) (summary accepted : Option Text)
      → snapshot_for_conversation u s conversation now es ≡ ok snapshot
      → s.context_max_chars ≤ 1_000
      → safe_optional_summary u summary ≡ ok accepted
      → (c : Option Context) × (project_chat_context u snapshot summary s ≡ ok c)
        × Projects s.context_max_chars snapshot.active_topic c
  unfolding project_chat_context
  project_fits s conversation now es snapshot summary accepted loaded small h =
      let is_loaded =
        snapshot_for_conversation-IsLoaded u closed s conversation now es snapshot loaded in
      let topic = snapshot.active_topic in
      let few = is_loaded.few in
      elim (Bool-cases (ltb s.context_max_chars (option_length topic))) [
        | inl long ↦ (none, ground arith, inr (ground arith))
        | inr short ↦
            let (c, made, fits) =
              project_within_lem s.context_max_chars (s.context_max_chars - option_length topic)
                topic summary accepted snapshot.recent_turns is_loaded.turns is_loaded.in_order
                is_loaded.few is_loaded.topic (ground arith) small h in
            (c, ground (arith, made), Fits-Projects s.context_max_chars topic c fits)
      ]
