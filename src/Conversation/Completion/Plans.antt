-- ===== src/Conversation/Completion/Plans.antt =====
-- The compaction plan of a reservation, met again by `_locked_compaction_candidates` of
-- conversation/repository.py: where identifiers are unique, it selects the rows of the plan.
use legal_chatbot_ueb_demo_s.Conversation.Completion.Distinct.{
  Distinct, Unique-Distinct, member-insert_ordered, member-terminal_rows, terminal_rows-Distinct,
  member-take, named-take,
}
use legal_chatbot_ueb_demo_s.Prelude.{
  ℕ, suc, sym, ap, subst, ◌∙◌, ◌+◌, ◌-◌, ◌≤◌, ◌≡◌, refl, true, false, List, [], ◌∷◌, ◌==◌, length,
  take, length-take, ok, arith, Bool-cases, inl, inr, zero,
}
use legal_chatbot_ueb_demo_s.Table.{member, Unique}
use legal_chatbot_ueb_demo_s.Conversation.Store.{Exchange, exchange_key}
use legal_chatbot_ueb_demo_s.Conversation.Queries.{
  in_conversation, is_processing, is_terminal_in, insert_ordered, terminal_rows, ids,
  compacted_rows, compaction_plan,
}
use legal_chatbot_ueb_demo_s.Conversation.Completion.{
  candidate_rows, all_terminal, locked_candidates, without, terminal_count,
}
use legal_chatbot_ueb_demo_s.Conversation.Completion.Rows.{
  length-insert_ordered, length-terminal_rows, same_ids_refl, terminal_rows-IsOrdered, named,
  named-insert_ordered,
}

-- Of a conversation, the plan names terminal exchanges only.
abbrev NamesTerminal : ℕ → List ℕ → List Exchange → Type 0
NamesTerminal c plan [] = Unit
NamesTerminal c plan (e ∷ es) =
    (in_conversation c e ≡ true → member e.id plan ≡ true → is_processing e.status ≡ false)
    × NamesTerminal c plan es

candidate_rows-named :
    (c : ℕ) (plan : List ℕ) (es : List Exchange)
    → NamesTerminal c plan es
    → candidate_rows c plan es ≡ named plan (terminal_rows c es)
unfolding candidate_rows terminal_rows named
candidate_rows-named c plan [] t = refl
candidate_rows-named c plan (e ∷ es) t = elim (Bool-cases (in_conversation c e)) [
  | inr other ↦ ground (arith, candidate_rows-named c plan es)
  | inl there ↦ elim (Bool-cases (member e.id plan)) [
    | inl planned ↦
        let over = t.0 there planned in
        ground (
          arith,
          candidate_rows-named c plan es,
          named-insert_ordered plan e (terminal_rows c es) (terminal_rows-IsOrdered c es),
        )
    | inr spared ↦ ground (
      arith,
      candidate_rows-named c plan es,
      named-insert_ordered plan e (terminal_rows c es) (terminal_rows-IsOrdered c es),
    )
  ]
]

NamesTerminal-mono :
    (c : ℕ) (plan plan' : List ℕ) (es : List Exchange)
    → ((j : ℕ) → member j (ids es) ≡ true → member j plan' ≡ true → member j plan ≡ true)
    → NamesTerminal c plan es
    → NamesTerminal c plan' es
NamesTerminal-mono c plan plan' [] sub t = tt
NamesTerminal-mono c plan plan' (e ∷ es) sub t = (
  λ here named. t.0 here (sub e.id (ground arith) named),
  NamesTerminal-mono c plan plan' es (λ j there named. sub j (ground arith) named) t.1,
)

terminal_rows_there :
    (c : ℕ) (e : Exchange) (es : List Exchange)
    → is_terminal_in c e ≡ true
    → terminal_rows c (e ∷ es) ≡ insert_ordered e (terminal_rows c es)
unfolding terminal_rows
terminal_rows_there c e es h = ground arith

terminal_rows_other :
    (c : ℕ) (e : Exchange) (es : List Exchange)
    → is_terminal_in c e ≡ false
    → terminal_rows c (e ∷ es) ≡ terminal_rows c es
unfolding terminal_rows
terminal_rows_other c e es h = ground arith

member_other :
    (j : ℕ) (e : Exchange) (es rows : List Exchange)
    → member e.id (ids es) ≡ false
    → member j (ids es) ≡ true
    → member j (ids (insert_ordered e rows)) ≡ true
    → member j (ids rows) ≡ true
member_other j e es rows other known planned = elim (Bool-cases (e.id == j)) [
  | inl same_one ↦
      let same_id : e.id ≡ j = ground arith in
      let unknown : member j (ids es) ≡ false = rw (← same_id) other in absurd (ground arith)
  | inr other_one ↦ ground (arith, member-insert_ordered j e rows)
]

terminal_rows-NamesTerminal :
    (c : ℕ) (es : List Exchange) → Distinct es → NamesTerminal c (ids (terminal_rows c es)) es
terminal_rows-NamesTerminal c [] d = tt
terminal_rows-NamesTerminal c (e ∷ es) d =
    let rows = terminal_rows c es in
    let ih = terminal_rows-NamesTerminal c es d.1 in
    elim (Bool-cases (is_terminal_in c e)) [
      | inl there ↦
          subst (λ rows'. NamesTerminal c (ids rows') (e ∷ es))
            (sym (terminal_rows_there c e es there))
            (
              λ here planned. ground arith,
              NamesTerminal-mono c (ids rows) (ids (insert_ordered e rows)) es
                  (λ j known planned. member_other j e es rows d.0 known planned) ih,
            )
      | inr other ↦
          subst (λ rows'. NamesTerminal c (ids rows') (e ∷ es))
            (sym (terminal_rows_other c e es other))
            (λ here planned. absurd (ground (arith, member-terminal_rows e.id c es d.0)), ih)
    ]

compacted-NamesTerminal :
    (n c : ℕ) (es : List Exchange)
    → Distinct es
    → NamesTerminal c (ids (take n (terminal_rows c es))) es
compacted-NamesTerminal n c es d =
    NamesTerminal-mono c (ids (terminal_rows c es)) (ids (take n (terminal_rows c es))) es
      (λ j known planned. ground (arith, member-take j n (terminal_rows c es)))
      (terminal_rows-NamesTerminal c es d)

candidate_rows-take :
    (n c : ℕ) (es : List Exchange)
    → Distinct es
    → candidate_rows c (ids (take n (terminal_rows c es))) es ≡ take n (terminal_rows c es)
candidate_rows-take n c es d =
    candidate_rows-named c (ids (take n (terminal_rows c es))) es (compacted-NamesTerminal n c es d)
    ∙ named-take n (terminal_rows c es) (terminal_rows-Distinct c es d)

insert_ordered-all_terminal :
    (e : Exchange) (xs : List Exchange)
    → is_processing e.status ≡ false
    → all_terminal xs ≡ true
    → all_terminal (insert_ordered e xs) ≡ true
unfolding insert_ordered
insert_ordered-all_terminal e [] h a = ground arith
insert_ordered-all_terminal e (x ∷ xs) h a = ground (arith, insert_ordered-all_terminal e xs)

terminal_rows-all_terminal : (c : ℕ) (es : List Exchange) → all_terminal (terminal_rows c es) ≡ true
unfolding terminal_rows
terminal_rows-all_terminal c [] = refl
terminal_rows-all_terminal c (e ∷ es) =
    ground
      (arith, terminal_rows-all_terminal c es, insert_ordered-all_terminal e (terminal_rows c es))

take-all_terminal :
    (n : ℕ) (xs : List Exchange) → all_terminal xs ≡ true → all_terminal (take n xs) ≡ true
take-all_terminal zero xs a = refl
take-all_terminal (suc n) [] a = refl
take-all_terminal (suc n) (x ∷ xs) a = ground (arith, take-all_terminal n xs)

-- The candidates that a reservation has planned are found again, and are terminal.
pub planned_found :
    (retained c : ℕ) (es : List Exchange)
    → Unique exchange_key es
    → locked_candidates c (compaction_plan retained c es) es ≡ ok (compacted_rows retained c es)
unfolding locked_candidates compaction_plan compacted_rows
planned_found retained c es u =
    let n = length (terminal_rows c es) + 1 - retained in
    let rows = take n (terminal_rows c es) in
    rw (candidate_rows-take n c es (Unique-Distinct es u)) (
      ground (
        arith,
        same_ids_refl (ids rows),
        take-all_terminal n (terminal_rows c es) (terminal_rows-all_terminal c es),
      ))

without_count :
    (c : ℕ) (plan : List ℕ) (es : List Exchange)
    → NamesTerminal c plan es
    → terminal_count c (without c plan es) + length (candidate_rows c plan es) ≡ terminal_count c es
unfolding terminal_count without candidate_rows
without_count c plan [] t = refl
without_count c plan (e ∷ es) t = elim (Bool-cases (in_conversation c e)) [
  | inr other ↦ ground (arith, without_count c plan es)
  | inl there ↦ elim (Bool-cases (member e.id plan)) [
    | inl planned ↦
        let over = t.0 there planned in
        ground (arith, without_count c plan es, length-insert_ordered e (candidate_rows c plan es))
    | inr spared ↦ ground (arith, without_count c plan es)
  ]
]

-- Without the planned exchanges, there is room for one more terminal one.
pub planned_room :
    (retained c : ℕ) (es : List Exchange)
    → Unique exchange_key es
    → 1 ≤ retained
    → suc (terminal_count c (without c (compaction_plan retained c es) es)) ≤ retained
unfolding compaction_plan compacted_rows
planned_room retained c es u room =
    let n = length (terminal_rows c es) + 1 - retained in
    let d = Unique-Distinct es u in
    let plan = ids (take n (terminal_rows c es)) in
    omega (
      arith,
      without_count c plan es (compacted-NamesTerminal n c es d),
      ap (length {A = Exchange}) (candidate_rows-take n c es d),
      length-take n (terminal_rows c es),
      length-terminal_rows c es,
    )

-- An exchange that is being processed is not planned.
pub planned_spares :
    (retained c : ℕ) (e : Exchange) (es : List Exchange)
    → Unique exchange_key (e ∷ es)
    → in_conversation c e ≡ true
    → is_processing e.status ≡ true
    → member e.id (compaction_plan retained c (e ∷ es)) ≡ false
unfolding compaction_plan compacted_rows
planned_spares retained c e es u here processing =
    let n = length (terminal_rows c (e ∷ es)) + 1 - retained in
    let spared = (compacted-NamesTerminal n c (e ∷ es) (Unique-Distinct (e ∷ es) u)).0 here in
    elim (Bool-cases (member e.id (ids (take n (terminal_rows c (e ∷ es)))))) [
      | inl planned ↦ let over = spared planned in absurd (ground arith)
      | inr other ↦ other
    ]
