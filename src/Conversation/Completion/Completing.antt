-- ===== src/Conversation/Completion/Completing.antt =====
-- What a successful `complete` of conversation/repository.py has checked and does.
use legal_chatbot_ueb_demo_s.Prelude.{
  Option-cases, ℕ, ◌+◌, ◌≤◌, ◌≡◌, refl, true, some, Result, ok, err, arith, Result-cases, inl, inr,
}
use legal_chatbot_ueb_demo_s.Table.{find, update}
use legal_chatbot_ueb_demo_s.Unicode.{Unicode}
use legal_chatbot_ueb_demo_s.Channels.Models.{Datetime, naive, aware, seconds}
use legal_chatbot_ueb_demo_s.Conversation.Models.{ConversationErrorCode}
use legal_chatbot_ueb_demo_s.Conversation.Store.{
  ChatResult, Stored, stored, Exchange, exchange_key, Conversation, conversation_key, Database,
  Fault, settled, persisted_exchange, known_run,
}
use legal_chatbot_ueb_demo_s.Conversation.Queries.{locked_active_conversation, repository_now}
use legal_chatbot_ueb_demo_s.Conversation.Exchanges.{Reservation}
use legal_chatbot_ueb_demo_s.Conversation.Exchanges.Reserving.{locked_found}
use legal_chatbot_ueb_demo_s.Conversation.Completion.{
  StateUpdate, processing_exchange, locked_candidates, answered, advanced, without, terminal_count,
  write_completion, complete_tx, complete_guard, complete,
}

processing_found :
    (r : Reservation) (now : ℕ) (db : Database) (e : Exchange)
    → processing_exchange r now db ≡ ok e
    → find exchange_key r.exchange_id db.exchanges ≡ some e
unfolding processing_exchange
processing_found r now db e h = elim (Option-cases (find exchange_key r.exchange_id db.exchanges)) [
  | inl gone ↦ absurd (ground arith)
  | inr (x, there) ↦ elim (Option-cases x.lease_expires_at) [
    | inl unleased ↦ absurd (ground arith)
    | inr (lease, leased) ↦ ground arith
  ]
]

repository_now_lem : (now : Datetime) (t : ℕ) → repository_now now ≡ ok t → now ≡ aware t
unfolding repository_now
repository_now_lem (naive x) t h = absurd (ground arith)
repository_now_lem (aware x) t h = ground arith

module _ (u : Unicode) (retention_seconds retained : ℕ) (r : Reservation) (chat : ChatResult)
    (up : StateUpdate) (now : Datetime) where
  -- What a completion that returns has done.
  pub record Completes (db : Database) (p : Stored) (db' : Database) : Type 0 where
    pub conversation : Conversation
    pub exchange : Exchange
    pub time : ℕ
    pub at_time : now ≡ aware time
    pub active : locked_active_conversation r.conversation_id time db ≡ ok conversation
    pub found : find conversation_key r.conversation_id db.conversations ≡ some conversation
    pub version : conversation.state_version ≡ r.expected_state_version
    pub selected : find exchange_key r.exchange_id db.exchanges ≡ some exchange
    pub persisted : persisted_exchange u (stored chat) ≡ ok p
    pub run_known : known_run chat.retrieval_run_id db ≡ true
    pub written : db' ≡ record db {
      conversations =
          update conversation_key
            (advanced up (time + seconds retention_seconds) conversation)
            db.conversations;
      exchanges =
          without r.conversation_id r.compacted
            (update exchange_key (answered chat exchange) db.exchanges);
    }
    pub retention : terminal_count r.conversation_id db'.exchanges ≤ retained

  complete_tx-Completes :
      (t : ℕ) (db db' : Database) (p : Stored)
      → now ≡ aware t
      → complete_tx u retention_seconds retained r chat up t db ≡ ok (p, db')
      → Completes db p db'
  unfolding complete_tx write_completion
  complete_tx-Completes t db db' p at_t h =
      elim (Result-cases (locked_active_conversation r.conversation_id t db)) [
        | inr (f, e) ↦ absurd (ground arith)
        | inl (c, e) ↦ elim (Result-cases (processing_exchange r t db)) [
          | inr (f, e2) ↦ absurd (ground arith)
          | inl (x, e2) ↦
              elim (Result-cases (locked_candidates r.conversation_id r.compacted db.exchanges)) [
                | inr (f, e3) ↦ absurd (ground arith)
                | inl (rows, e3) ↦ elim (Result-cases (persisted_exchange u (stored chat))) [
                  | inr (f, e4) ↦ absurd (ground arith)
                  | inl (q, e4) ↦ record {
                    conversation = c;
                    exchange = x;
                    time = t;
                    at_time = at_t;
                    active = e;
                    found = locked_found r.conversation_id t db c e;
                    version = ground arith;
                    selected = processing_found r t db x e2;
                    persisted = ground arith;
                    run_known = ground arith;
                    written = ground arith;
                    retention = ground arith;
                  }
                ]
              ]
        ]
      ]

  -- What `complete` answers tells whether it has done that, or left the database as it was.
  abbrev pub CompletesOr : Database → Result ConversationErrorCode Stored × Database → Type 0
  CompletesOr db (ok p, db') = Completes db p db'
  CompletesOr db (err e, db') = db' ≡ db

  settled-Completes :
      (t : ℕ) (db : Database) (o : Result Fault (Stored × Database))
      → now ≡ aware t
      → complete_tx u retention_seconds retained r chat up t db ≡ o
      → CompletesOr db (settled db o)
  settled-Completes t db (ok (p, db')) at_t e = complete_tx-Completes t db db' p at_t e
  settled-Completes t db (err f) at_t e = refl

  guard_time :
      (t : ℕ) → complete_guard u retention_seconds retained r chat up now ≡ ok t → now ≡ aware t
  unfolding complete_guard repository_now
  guard_time t h = repository_now_lem now t (ground arith)

  -- If `complete` returns an exchange, the conversation was found, active, at the expected version, its
  -- version is one higher, its summary and topic are the new ones and it expires the retention period
  -- after the time of the call, the exchange of the reservation is completed with the result and its
  -- lease cleared, the exchanges of the compaction plan are gone, and no more terminal exchanges remain
  -- than the limit; if it raises, the database is as it was.
  pub complete-Completes :
      (db : Database) → CompletesOr db (complete u retention_seconds retained r chat up now db)
  unfolding complete
  complete-Completes db =
      elim (Result-cases (complete_guard u retention_seconds retained r chat up now)) [
        | inr (f, e) ↦ rw (e, complete) refl
        | inl (t, e) ↦ rw (e, complete) (settled-Completes t db _ (guard_time t e) refl)
      ]
