-- ===== src/Conversation/Snapshots.antt =====
-- `_load_snapshot_for_conversation`, `load_snapshot` and the candidates of
-- `_compaction_plan_for_reservation`, conversation/repository.py.
pub mod Loaded
use legal_chatbot_ueb_demo_s.Prelude.{
  ℕ, suc, ◌+◌, ◌-◌, ◌*◌, ◌/◌, Bool, true, false, not, ◌&&◌, ◌||◌, Option, none, some, List, [], ◌∷◌,
  ◌++◌, leb, ◌==◌, if◌then◌else◌, length, drop, Text, Result, ok, err, ◌>>=◌, ◌>>◌, require,
}
use legal_chatbot_ueb_demo_s.Table.{member, find}
use legal_chatbot_ueb_demo_s.Unicode.{Unicode}
use legal_chatbot_ueb_demo_s.Channels.Models.{Datetime}
use legal_chatbot_ueb_demo_s.Conversation.Models.{ConversationErrorCode, Settings}
use legal_chatbot_ueb_demo_s.Conversation.Store.{
  Stored, Exchange, Conversation, conversation_key, Database, Fault, validation_error,
  to_conversation_error,
}
use legal_chatbot_ueb_demo_s.Conversation.Queries.{
  repository_now, require_active_conversation, completed_rows, compacted_rows, ids,
}
use legal_chatbot_ueb_demo_s.Conversation.State.{
  TurnRole, Turn, conversation_turn, ReferenceKind, Reference, Snapshot, conversation_snapshot,
  Candidate, compaction_candidate,
}

-- The last rows of a list, `xs[-n:]` for a positive `n`.
abbrev pub last_of {ℓ} : {A : Type ℓ} → ℕ → List A → List A
last_of n xs = drop (length xs - n) xs

abbrev reversed {ℓ} : {A : Type ℓ} → List A → List A
reversed [] = []
reversed (x ∷ xs) = reversed xs ++ x ∷ []

module _ (u : Unicode) where
  unfoldable pub turns_of : Exchange → Result Fault (List Turn)
  turns_of e = elim e.result [
    | none ↦ err validation_error
    | some r ↦ do
      question ← conversation_turn u (e.ordinal * 2 - 1) TurnRole.user e.user_text none none
      reply ←
          conversation_turn u (e.ordinal * 2) TurnRole.assistant r.answer (some r.outcome)
            (some r.reason)
      ok (question ∷ reply ∷ [])
  ]

  unfoldable pub turns_of_all : List Exchange → Result Fault (List Turn)
  unfolding turns_of
  turns_of_all [] = ok []
  turns_of_all (e ∷ es) = do ts ← turns_of e; rest ← turns_of_all es; ok (ts ++ rest)

-- The references of one exchange, in the order of their ordinals and kinds.
unfoldable pub reference_rows : List ℕ → List ℕ → List (ReferenceKind × ℕ)
reference_rows [] [] = []
reference_rows (c ∷ cs) [] = (ReferenceKind.citation, c) ∷ reference_rows cs []
reference_rows [] (d ∷ ds) = (ReferenceKind.document, d) ∷ reference_rows [] ds
reference_rows (c ∷ cs) (d ∷ ds) =
    (ReferenceKind.citation, c) ∷ (ReferenceKind.document, d) ∷ reference_rows cs ds

abbrev reference_rows_of : Option Stored → List (ReferenceKind × ℕ)
reference_rows_of none = []
reference_rows_of (some r) = reference_rows r.citation_ids r.document_ids

unfoldable pub all_reference_rows : List Exchange → List (ReferenceKind × ℕ)
unfolding reference_rows
all_reference_rows [] = []
all_reference_rows (e ∷ es) = reference_rows_of e.result ++ all_reference_rows es

-- The loop over the rows: `cs` and `ds` are the identifiers that it has seen of each kind, whose
-- numbers are the next ordinals.
unfoldable pub collect_references : ℕ → List ℕ → List ℕ → List (ReferenceKind × ℕ) → List Reference
collect_references limit cs ds [] = []
collect_references limit cs ds ((ReferenceKind.citation, id) ∷ rows) =
    let skipped = collect_references limit cs ds rows in
    let taken = collect_references limit (id ∷ cs) ds rows in
    if member id cs || leb limit (length cs)
    then skipped
    else record { kind = ReferenceKind.citation; reference_id = id; ordinal = length cs } ∷ taken
collect_references limit cs ds ((ReferenceKind.document, id) ∷ rows) =
    let skipped = collect_references limit cs ds rows in
    let taken = collect_references limit cs (id ∷ ds) rows in
    if member id ds || leb limit (length ds)
    then skipped
    else record { kind = ReferenceKind.document; reference_id = id; ordinal = length ds } ∷ taken

module _ (u : Unicode) (s : Settings) where
  -- `_load_snapshot_for_conversation`
  unfoldable pub snapshot_for_conversation :
      Conversation → ℕ → List Exchange → Result Fault Snapshot
  unfolding turns_of_all all_reference_rows collect_references
  snapshot_for_conversation conversation now es = do
    c ← require_active_conversation (some conversation) now
    let rows = completed_rows c.id es in
        let recent = last_of ((s.recent_completed_turn_limit + 1) / 2) rows in
        do
          turns ← turns_of_all u recent
          conversation_snapshot u c.state_version c.rolling_summary c.active_topic
              (last_of s.recent_completed_turn_limit turns)
              (collect_references s.reference_limit [] []
                (all_reference_rows (reversed (last_of s.retained_exchange_limit rows))))

  unfoldable pub load_snapshot : ℕ → Datetime → Database → Result ConversationErrorCode Snapshot
  unfolding snapshot_for_conversation repository_now to_conversation_error
  load_snapshot id now db =
      elim (do
        t ← repository_now now
        c ← require_active_conversation (find conversation_key id db.conversations) t
        snapshot_for_conversation c t db.exchanges) [
          | ok snapshot ↦ ok snapshot
          | err f ↦ err (to_conversation_error f)
        ]

abbrev pub nodup : List ℕ → Bool
nodup [] = true
nodup (x ∷ xs) = not (member x xs) && nodup xs

unfoldable pub compaction_candidates : Unicode → List Exchange → Result Fault (List Candidate)
unfolding compaction_candidate
compaction_candidates u [] = ok []
compaction_candidates u (e ∷ es) = do
  c ← compaction_candidate u e
  cs ← compaction_candidates u es
  ok (c ∷ cs)

-- `_compaction_plan_for_reservation`, with the validator of the plan.
unfoldable pub planned_candidates : Unicode → ℕ → ℕ → List Exchange → Result Fault (List Candidate)
unfolding compacted_rows compaction_candidates
planned_candidates u retained conversation es = do
  candidates ← compaction_candidates u (compacted_rows retained conversation es)
  require (nodup (ids (compacted_rows retained conversation es))) validation_error
  ok candidates
