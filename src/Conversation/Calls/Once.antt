-- ===== src/Conversation/Calls/Once.antt =====
-- The state version of a conversation: it only grows, and a completion moves it on. So a reservation
-- is completed once.
use legal_chatbot_ueb_demo_s.Channels.Models.{Datetime, seconds}
use legal_chatbot_ueb_demo_s.Conversation.Models.{Settings, ConversationErrorCode}
use legal_chatbot_ueb_demo_s.Prelude.{
  ℕ, ◌+◌, ◌≤◌, ◌≡◌, refl, Bool, true, ◌&&◌, Option, none, some, List, [], ◌∷◌, Text, String, Result,
  ok, err, arith, Bool-cases, inl, inr, ltb, ◌==◌, if◌then◌else◌,
}
use legal_chatbot_ueb_demo_s.Table.{find, find-update, find_sound}
use legal_chatbot_ueb_demo_s.Unicode.{Unicode}
use legal_chatbot_ueb_demo_s.Conversation.Store.{
  ChatResult, Stored, Conversation, conversation_key, Database,
}
use legal_chatbot_ueb_demo_s.Conversation.Exchanges.{Reservation}
use legal_chatbot_ueb_demo_s.Conversation.Exchanges.Reserving.{
  Reserves, unchanged, abandons, adds, reserve-Reserves, create-effect,
}
use legal_chatbot_ueb_demo_s.Conversation.Completion.{StateUpdate, complete, advanced}
use legal_chatbot_ueb_demo_s.Conversation.Completion.Completing.{
  CompletesOr, Completes, complete-Completes,
}
use legal_chatbot_ueb_demo_s.Conversation.Calls.{
  Call, creating, reserving, completing, perform, perform_all,
}

abbrev past : ℕ → Option Conversation → ℕ
past version none = 0
past version (some c) = if ltb version c.state_version then 1 else 0

-- Whether the state version of the conversation is past the one that the reservation expects.
abbrev pub overtaken : Reservation → Database → ℕ
overtaken r db =
    past r.expected_state_version (find conversation_key r.conversation_id db.conversations)

abbrev pub same_version : Reservation → Reservation → Bool
same_version q r =
    q.conversation_id == r.conversation_id && q.expected_state_version == r.expected_state_version

same_conversations :
    (r : Reservation) (db db' : Database)
    → db'.conversations ≡ db.conversations
    → overtaken r db ≤ overtaken r db'
same_conversations r db db' e = rw e (omega arith)

Reserves-conversations :
    (db db' : Database) → Reserves db db' → db'.conversations ≡ db.conversations
Reserves-conversations db db' (unchanged e) = rw e refl
Reserves-conversations db db' (abandons c now e) = rw e refl
Reserves-conversations db db' (adds c now e s free written) = rw written refl

module _ (u : Unicode) (retention retained : ℕ) (r : Reservation) (chat : ChatResult)
    (up : StateUpdate) (now : Datetime) where
  -- A completion, of any reservation, overtakes no less; its own reservation it overtakes first.
  Completes-overtaken :
      (q : Reservation) (db db' : Database) (p : Stored)
      → Completes u retention retained r chat up now db p db'
      → overtaken q db ≤ overtaken q db'
  Completes-overtaken q db db' p done =
      let step = advanced up (done.time + seconds retention) done.conversation in
      rw done.written (
        ground (
          arith,
          done.found,
          find_sound conversation_key r.conversation_id db.conversations done.conversation
              done.found,
          find-update conversation_key q.conversation_id step db.conversations,
        ))

  Completes-overtakes :
      (q : Reservation) (db db' : Database) (p : Stored)
      → same_version q r ≡ true
      → Completes u retention retained r chat up now db p db'
      → 1 + overtaken q db ≤ overtaken q db'
  Completes-overtakes q db db' p same_one done =
      let step = advanced up (done.time + seconds retention) done.conversation in
      let same_conversation : q.conversation_id ≡ r.conversation_id = ground arith in
      let same_expected : q.expected_state_version ≡ r.expected_state_version = ground arith in
      rw (done.written, same_conversation, same_expected)
        (ground (
          arith,
          done.found,
          done.version,
          find_sound conversation_key r.conversation_id db.conversations done.conversation
              done.found,
          find-update conversation_key r.conversation_id step db.conversations,
        ))

-- Whether the call has completed an exchange of the conversation at the version that `q` expects.
abbrev succeeded : Reservation → Reservation → Result ConversationErrorCode Stored → ℕ
succeeded q r (ok p) = if same_version q r then 1 else 0
succeeded q r (err e) = 0

module _ (u : Unicode) (sha256 : Text → String) (s : Settings) (q : Reservation) where
  abbrev counts : Call → Database → ℕ
  counts (completing r chat up now) db =
      succeeded q r (complete u s.retention_seconds s.retained_exchange_limit r chat up now db).0
  counts _ db = 0

  -- How often a sequence of calls completes an exchange at that version.
  unfoldable pub completions : List Call → Database → ℕ
  completions [] db = 0
  completions (c ∷ cs) db = counts c db + completions cs (perform u sha256 s c db)

  complete-overtakes :
      (r : Reservation) (chat : ChatResult) (up : StateUpdate) (now : Datetime) (db : Database)
      (o : Result ConversationErrorCode Stored × Database)
      → CompletesOr u s.retention_seconds s.retained_exchange_limit r chat up now db o
      → succeeded q r o.0 + overtaken q db ≤ overtaken q o.1
  complete-overtakes r chat up now db (err e, db') kept = rw kept (omega arith)
  complete-overtakes r chat up now db (ok p, db') done = elim (Bool-cases (same_version q r)) [
    | inl same_one ↦ rw same_one (
        Completes-overtakes u s.retention_seconds s.retained_exchange_limit r chat up now q db db' p
          same_one done)
    | inr other_one ↦ rw other_one (
        omega (
          arith,
          Completes-overtaken u s.retention_seconds s.retained_exchange_limit r chat up now q db db'
              p done,
        ))
  ]

  perform-overtakes :
      (c : Call) (db : Database)
      → counts c db + overtaken q db ≤ overtaken q (perform u sha256 s c db)
  unfolding perform
  perform-overtakes (creating fresh now) db =
      elim (create-effect fresh s.retention_seconds now db) [
        | inl same_db ↦ rw same_db (omega arith)
        | inr (expires_at, new_id, written) ↦ rw written (unfold find in ground (arith, new_id))
      ]
  perform-overtakes (reserving fresh request now) db =
      let db' = perform u sha256 s (reserving fresh request now) db in
      let kept = Reserves-conversations db db' (reserve-Reserves u sha256 fresh s request now db) in
      omega (arith, same_conversations q db db' kept)
  perform-overtakes (completing r chat up now) db =
      complete-overtakes r chat up now db _
        (complete-Completes u s.retention_seconds s.retained_exchange_limit r chat up now db)

  completions-overtaken :
      (calls : List Call) (db : Database)
      → completions calls db + overtaken q db ≤ overtaken q (perform_all u sha256 s calls db)
  unfolding completions perform_all
  completions-overtaken [] db = omega arith
  completions-overtaken (c ∷ cs) db =
      omega (arith, perform-overtakes c db, completions-overtaken cs (perform u sha256 s c db))

  overtaken_once : (db : Database) → overtaken q db ≤ 1
  overtaken_once db = ground arith

  -- Whatever services create, reserve and complete, in whatever order: for each conversation and each
  -- state version, at most one completion that expects this version succeeds. So a reservation is
  -- completed at most once, and so is one that was taken at the same version.
  pub completes_once : (calls : List Call) (db : Database) → completions calls db ≤ 1
  completes_once calls db =
      omega
        (arith, completions-overtaken calls db, overtaken_once (perform_all u sha256 s calls db))
