-- ===== src/Conversation/Service/Replays.antt =====
-- A delivery that conversation/service.py has completed, and the same delivery again: the second
-- answer is read back from the exchange and its citations.
use legal_chatbot_ueb_demo_s.Prelude.{
  ℕ, subst, ◌∙◌, ◌≤◌, ◌≡◌, refl, Bool, true, false, not, ◌&&◌, ◌||◌, Option, none, some, List, [],
  ◌∷◌, leb, length, Text, ok, arith, Bool-cases, Option-cases, Result-cases, inl, inr,
}
use legal_chatbot_ueb_demo_s.Table.{is_some}
use legal_chatbot_ueb_demo_s.Unicode.{Unicode, is_blank, normalized}
use legal_chatbot_ueb_demo_s.Unicode.Substrings.{ClosedUnderSubstring, normalized-normalized}
use legal_chatbot_ueb_demo_s.Conversation.Store.{
  ChatOutcome, ChatReason, ChatResult, Citation, stored, distinct, is_grounded, is_empty,
  is_no_results, is_refusal_reason, is_retrieval_failure,
}
use legal_chatbot_ueb_demo_s.Conversation.Snapshots.{nodup}
use legal_chatbot_ueb_demo_s.Conversation.Completion.{same_ids}
use legal_chatbot_ueb_demo_s.Conversation.Policy.Contracts.{nonblank_field}
use legal_chatbot_ueb_demo_s.Conversation.Results.{
  citation_ids, document_ids, result_route, grounded_result, no_citations, of_run, route,
  no_metadata,
}
use legal_chatbot_ueb_demo_s.Conversation.Service.{
  Reply, resolve_all, replay_answer, replayed_other, replayed,
}

-- What the contract has made sure of.
pub record IsGrounded (u : Unicode) (chat : ChatResult) : Type 0 where
  pub text : normalized u chat.answer ≡ chat.answer
  pub visible : is_blank chat.answer ≡ false
  pub short : length chat.answer ≤ 4_000
  pub routed : result_route chat ≡ true

pub nonblank_facts :
    (u : Unicode) (closed : ClosedUnderSubstring u) (x t : Text)
    → nonblank_field u 4_000 x ≡ ok t
    → (normalized u t ≡ t) × (is_blank t ≡ false) × (length t ≤ 4_000)
unfolding nonblank_field
nonblank_facts u closed x t h =
    let kept : normalized u x ≡ t = ground arith in
    (
      subst (λ t'. normalized u t' ≡ t') kept (normalized-normalized u closed x),
      ground arith,
      ground arith,
    )

route_of_outcome :
    (o : ChatOutcome) (r : ChatResult) (t : Text) → route o (record r { answer = t }) ≡ route o r
route_of_outcome ChatOutcome.answer r t = refl
route_of_outcome ChatOutcome.clarification r t = refl
route_of_outcome ChatOutcome.refusal r t = refl

route_kept : (r : ChatResult) (t : Text) → result_route (record r { answer = t }) ≡ result_route r
unfolding result_route
route_kept r t = ground (arith, route_of_outcome r.outcome r t)

pub grounded_result-IsGrounded :
    (u : Unicode) (closed : ClosedUnderSubstring u) (raw chat : ChatResult)
    → grounded_result u raw ≡ ok chat
    → IsGrounded u chat
unfolding grounded_result
grounded_result-IsGrounded u closed raw chat h =
    elim (Result-cases (nonblank_field u 4_000 raw.answer)) [
      | inr (f, e) ↦ absurd (ground arith)
      | inl (t, e) ↦ elim (Bool-cases (result_route raw)) [
        | inr refused ↦ absurd (ground arith)
        | inl routed ↦
            let made : record raw { answer = t } ≡ chat = ground arith in
            let facts = nonblank_facts u closed raw.answer t e in
            subst (IsGrounded u) made (record {
              text = facts.0;
              visible = facts.1;
              short = facts.2;
              routed = route_kept raw t ∙ routed;
            })
      ]
    ]

-- The contract accepts its own results.
pub grounded_again :
    (u : Unicode) (chat : ChatResult) → IsGrounded u chat → grounded_result u chat ≡ ok chat
unfolding grounded_result nonblank_field
grounded_again u chat g = ground (arith, g.text, g.visible, g.short, g.routed)

-- The resolver still knows the citations.
abbrev pub Resolves : (ℕ → ℕ → Reply Citation) → List Citation → Type 0
Resolves resolver [] = Unit
Resolves resolver (c ∷ cs) =
    (resolver c.citation_id c.retrieval_run_id ≡ ok c) × Resolves resolver cs

module _ (u : Unicode) (resolver : ℕ → ℕ → Reply Citation) where
  resolve_all_lem :
      (run : ℕ) (cs : List Citation)
      → of_run (some run) cs ≡ true
      → Resolves resolver cs
      → resolve_all u resolver run (citation_ids cs) ≡ ok cs
  unfolding resolve_all
  resolve_all_lem run [] h r = refl
  resolve_all_lem run (c ∷ cs) h r =
      let same_run : c.retrieval_run_id ≡ run = ground arith in
      let known : resolver c.citation_id run ≡ ok c =
        subst (λ n. resolver c.citation_id n ≡ ok c) same_run r.0 in
      ground (arith, known, resolve_all_lem run cs)

module _ (u : Unicode) (resolver : ℕ → ℕ → Reply Citation) (chat : ChatResult)
    (g : IsGrounded u chat) where
  same_ids_refl : (xs : List ℕ) → same_ids xs xs ≡ true
  same_ids_refl [] = refl
  same_ids_refl (x ∷ xs) = ground (arith, same_ids_refl xs)

  pub no_citations_nil : (cs : List Citation) → no_citations cs ≡ true → cs ≡ []
  no_citations_nil [] h = refl
  no_citations_nil (c ∷ cs) h = absurd (ground arith)

  -- A result without citations is built again from what is stored of it.
  replayed_refusal :
      no_citations chat.citations ≡ true
      → chat.provider ≡ none
      → chat.model ≡ none
      → chat.provider_request_id ≡ none
      → replayed_other u resolver (stored chat) ≡ ok chat
  unfolding replayed_other
  replayed_refusal h p m q =
      let none_cited = no_citations_nil chat.citations h in
      let same_one : chat ≡ record chat {
        citations = [];
        provider = none;
        model = none;
        provider_request_id = none;
      } =
        ground arith in
      subst (λ (x : ChatResult). grounded_result u x ≡ ok chat) same_one (grounded_again u chat g)

  last_two : (a b c d : Bool) → (a && b && c && d) ≡ true → (c ≡ true) × (d ≡ true)
  last_two a b c d h = ground arith

  five : (a b c d e : Bool) → (a && b && c && d && e) ≡ true → (a ≡ true) × (b ≡ true) × (c ≡ true)
  five a b c d e h = ground arith

  -- What the route of an answer says.
  record IsAnswer (run : ℕ) : Type 0 where
    reason : chat.reason ≡ ChatReason.answer_grounded
    run_of : chat.retrieval_run_id ≡ some run
    cited : no_citations chat.citations ≡ false
    runs : of_run (some run) chat.citations ≡ true

  is_grounded_eq : (r : ChatReason) → is_grounded r ≡ true → r ≡ ChatReason.answer_grounded
  is_grounded_eq ChatReason.answer_grounded h = refl
  is_grounded_eq ChatReason.answer_eligible h = absurd (ground arith)
  is_grounded_eq ChatReason.no_results h = absurd (ground arith)
  is_grounded_eq ChatReason.unsupported_temporal_scope h = absurd (ground arith)
  is_grounded_eq ChatReason.invalid_evidence_chain h = absurd (ground arith)
  is_grounded_eq ChatReason.retrieval_failure h = absurd (ground arith)
  is_grounded_eq ChatReason.grounding_failure h = absurd (ground arith)
  is_grounded_eq ChatReason.provider_failure h = absurd (ground arith)
  is_grounded_eq ChatReason.invalid_provider_output h = absurd (ground arith)
  is_grounded_eq ChatReason.citation_revalidation_failure h = absurd (ground arith)

  none_some : (x : Option ℕ) → x ≡ none → is_some x ≡ true → ⊥
  none_some x e h = ground arith

  not-false : (b : Bool) → not b ≡ true → b ≡ false
  not-false b h = ground arith

  answer_route : chat.outcome ≡ ChatOutcome.answer → (run : ℕ) × IsAnswer run
  unfolding result_route
  answer_route o =
      let (runs, routed) =
        last_two (leb (length chat.citations) 6) (nodup (citation_ids chat.citations))
          (of_run chat.retrieval_run_id chat.citations) (route chat.outcome chat) g.routed in
      let answer_routed : route ChatOutcome.answer chat ≡ true =
        subst (λ x. route x chat ≡ true) o routed in
      let (reason, has_run, cited) =
        five (is_grounded chat.reason) (is_some chat.retrieval_run_id)
          (not (no_citations chat.citations)) (is_some chat.provider) (is_some chat.model)
          answer_routed in
      elim (Option-cases chat.retrieval_run_id) [
        | inl gone ↦ absurd (none_some chat.retrieval_run_id gone has_run)
        | inr (run, there) ↦ (
          run,
          record {
            reason = is_grounded_eq chat.reason reason;
            run_of = there;
            cited = not-false (no_citations chat.citations) cited;
            runs = subst (λ x. of_run x chat.citations ≡ true) there runs;
          },
        )
      ]

  cited_ids : (cs : List Citation) → no_citations cs ≡ false → is_empty (citation_ids cs) ≡ false
  cited_ids [] h = absurd (ground arith)
  cited_ids (c ∷ cs) h = refl

  replayed_answer :
      chat.outcome ≡ ChatOutcome.answer
      → Resolves resolver chat.citations
      → replay_answer u resolver (stored chat) ≡ ok chat
  unfolding replay_answer
  replayed_answer o r =
      let (run, a) = answer_route o in
      let again = grounded_again u chat g in
      let same_one : record chat {
        outcome = ChatOutcome.answer;
        reason = ChatReason.answer_grounded;
        retrieval_run_id = some run;
      }
          ≡ chat =
        ground (arith, a.reason, a.run_of) in
      rw (o, a.run_of)
        (ground (
          arith,
          cited_ids chat.citations a.cited,
          resolve_all_lem u resolver run chat.citations a.runs r,
          same_ids_refl (distinct [] (document_ids chat.citations)),
          again,
          same_one,
        ))

  middle_two : (a b c d : Bool) → (a && b && c && d) ≡ true → (b ≡ true) × (c ≡ true)
  middle_two a b c d h = ground arith

  is_some-none : {A : Type 0} (x : Option A) → is_some x ≡ false → x ≡ none
  is_some-none none h = refl
  is_some-none (some a) h = absurd (ground arith)

  none_of : (a b c : Bool) → not (a || b || c) ≡ true → (a ≡ false) × (b ≡ false) × (c ≡ false)
  none_of a b c h = ground arith

  replayed_plain :
      no_citations chat.citations ≡ true
      → no_metadata chat ≡ true
      → replayed_other u resolver (stored chat) ≡ ok chat
  replayed_plain h plain =
      let (p, m, q) =
        none_of (is_some chat.provider) (is_some chat.model) (is_some chat.provider_request_id)
          plain in
      replayed_refusal h (is_some-none chat.provider p) (is_some-none chat.model m)
        (is_some-none chat.provider_request_id q)

  pub routed_of : (o : ChatOutcome) → chat.outcome ≡ o → route o chat ≡ true
  unfolding result_route
  routed_of o e =
      let routed =
        last_two (leb (length chat.citations) 6) (nodup (citation_ids chat.citations))
          (of_run chat.retrieval_run_id chat.citations) (route chat.outcome chat) g.routed in
      subst (λ x. route x chat ≡ true) e routed.1

  -- A stored result is built again, whatever its outcome.
  pub replayed_lem :
      (o : ChatOutcome)
      → chat.outcome ≡ o
      → Resolves resolver chat.citations
      → replayed u resolver o (stored chat) ≡ ok chat
  unfolding replayed
  replayed_lem ChatOutcome.answer e r = rw (replayed_answer e r) refl
  replayed_lem ChatOutcome.clarification e r =
      let (cited, plain) =
        last_two (is_no_results chat.reason) (is_some chat.retrieval_run_id)
          (no_citations chat.citations) (no_metadata chat)
          (routed_of ChatOutcome.clarification e) in
      replayed_plain cited plain
  replayed_lem ChatOutcome.refusal e r =
      let (cited, plain) =
        middle_two (is_refusal_reason chat.reason) (no_citations chat.citations) (no_metadata chat)
          (is_retrieval_failure chat.reason || is_some chat.retrieval_run_id)
          (routed_of ChatOutcome.refusal e) in
      replayed_plain cited plain
