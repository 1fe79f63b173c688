-- ===== src/Conversation/Exchanges/Reserving.antt =====
-- What `reserve` and `create_conversation` of conversation/repository.py do to the database.
use legal_chatbot_ueb_demo_s.Prelude.{
  ℕ, some, suc, List, [], ◌&&◌, Bool-cases, ◌+◌, ◌≡◌, refl, false, none, ◌∷◌, Text, String, Result,
  ok, err, arith, Option-cases, Result-cases, inl, inr, ◌⊎◌,
}
use legal_chatbot_ueb_demo_s.Table.{first, exists, find, Unique}
use legal_chatbot_ueb_demo_s.Unicode.{Unicode}
use legal_chatbot_ueb_demo_s.Channels.Models.{Datetime, seconds}
use legal_chatbot_ueb_demo_s.Conversation.Models.{ConversationRequest, ExchangeStatus, Settings}
use legal_chatbot_ueb_demo_s.Conversation.Store.{
  exchange_key, Exchange, Conversation, conversation_key, Database, Fault, unique_violation,
}
use legal_chatbot_ueb_demo_s.Conversation.Queries.{
  is_past, is_processing_in, by_key, abandon_stale, locked_active_conversation, maximum_ordinal,
  repository_now,
}
use legal_chatbot_ueb_demo_s.Conversation.Exchanges.{
  collides, ReservationResult, reserve_tx, reserve, reserve_guard, reserved_or_race, reserve_new,
  flush_insert, reservation_after_race, new_exchange, create_tx, create_conversation,
  new_conversation,
}

abbrev pub stale : ℕ → ℕ → Database → Database
stale c now db = record db { exchanges = abandon_stale c now db.exchanges }

pub locked_found :
    (id now : ℕ) (db : Database) (c : Conversation)
    → locked_active_conversation id now db ≡ ok c
    → find conversation_key id db.conversations ≡ some c
unfolding locked_active_conversation
locked_found id now db c h = elim (Option-cases (find conversation_key id db.conversations)) [
  | inl gone ↦ absurd (ground arith)
  | inr (d, there) ↦ ground arith
]

-- Nothing changes, stale exchanges are abandoned, or after that one is added that collides with none.
pub data Reserves (db : Database) (db' : Database) : Type 0 where
  unchanged : db' ≡ db → Reserves db db'
  abandons : (c now : ℕ) → db' ≡ stale c now db → Reserves db db'
  adds :
      (c now : ℕ) (e : Exchange)
      → e.status ≡ ExchangeStatus.processing
      → exists (collides e) (stale c now db).exchanges ≡ false
      → db' ≡ record (stale c now db) { exchanges = e ∷ (stale c now db).exchanges }
      → Reserves db db'

module _ (u : Unicode) (sha256 : Text → String) (fresh : ℕ) (s : Settings)
    (request : ConversationRequest) (key : String) where
  reserve_new-Reserves :
      (c : Conversation) (now lease : ℕ) (db db' : Database) (r : ReservationResult)
      → reserve_new u sha256 fresh lease s request key c now (stale c.id now db) ≡ ok (r, db')
      → Reserves db db'
  unfolding reserve_new flush_insert
  reserve_new-Reserves c now lease db db' r h =
      adds c.id now
        (new_exchange u sha256 fresh request key
          (suc (maximum_ordinal c.id (stale c.id now db).exchanges)) lease)
        refl (ground arith) (ground arith)

  reserve_tx-Reserves :
      (now : ℕ) (db db' : Database) (r : ReservationResult)
      → reserve_tx u sha256 fresh s request key now db ≡ ok (r, db')
      → Reserves db db'
  unfolding reserve_tx
  reserve_tx-Reserves now db db' r h =
      elim (Result-cases (locked_active_conversation request.conversation_id now db)) [
        | inr (f, e) ↦ absurd (ground arith)
        | inl (c, e) ↦ elim (Option-cases (first (by_key c.id key) (stale c.id now db).exchanges)) [
          | inr (x, there) ↦ abandons c.id now (ground arith)
          | inl gone ↦
              reserve_new-Reserves c now (now + seconds s.processing_lease_seconds) db db' r
                (ground arith)
        ]
      ]

  race-Reserves :
      (db : Database) (o : Result Fault (ReservationResult × Database))
      → ((r : ReservationResult) (db' : Database) → o ≡ ok (r, db') → Reserves db db')
      → Reserves db (reserved_or_race u sha256 request key db o).1
  unfolding reserved_or_race
  race-Reserves db (ok (r, db')) commits = commits r db' refl
  race-Reserves db (err unique_violation) commits =
      elim (Result-cases (reservation_after_race u sha256 request key db)) [
        | inl (r, e) ↦ unchanged (ground (arith, e))
        | inr (f, e) ↦ unchanged (ground (arith, e))
      ]
  race-Reserves db (err _) commits = unchanged refl

pub reserve-Reserves :
    (u : Unicode) (sha256 : Text → String) (fresh : ℕ) (s : Settings)
    (request : ConversationRequest) (now : Datetime) (db : Database)
    → Reserves db (reserve u sha256 fresh s request now db).1
unfolding reserve
reserve-Reserves u sha256 fresh s request now db =
    elim (Result-cases (reserve_guard u sha256 now request)) [
      | inr (f, e) ↦ rw (e, reserve) (unchanged refl)
      | inl ((t, key), e) ↦
          rw (e, reserve)
            (race-Reserves u sha256 fresh s request key db _
              (λ r db' h. reserve_tx-Reserves u sha256 fresh s request key t db db' r h))
    ]

-- A conversation is added under a new identifier, or nothing changes.
pub create-effect :
    (fresh retention_seconds : ℕ) (now : Datetime) (db : Database)
    → let db' = (create_conversation fresh retention_seconds now db).1 in
      (db' ≡ db)
      ⊎ (expires_at : ℕ) × (find conversation_key fresh db.conversations ≡ none)
        × (db' ≡ record db { conversations = new_conversation fresh expires_at ∷ db.conversations })
unfolding create_conversation create_tx
create-effect fresh retention_seconds now db = elim (Result-cases (repository_now now)) [
  | inr (f, e) ↦ inl (ground (arith, e))
  | inl (t, e) ↦ elim (Option-cases (find conversation_key fresh db.conversations)) [
    | inr (c, there) ↦ inl (ground (arith, e, there))
    | inl new_id ↦ inr (t + seconds retention_seconds, new_id, ground (arith, e, new_id))
  ]
]

find-abandon_stale :
    (k c now : ℕ) (es : List Exchange)
    → find exchange_key k es ≡ none
    → find exchange_key k (abandon_stale c now es) ≡ none
unfolding find abandon_stale
find-abandon_stale k c now [] h = refl
find-abandon_stale k c now (e ∷ es) h = ground (arith, find-abandon_stale k c now es)

abandon_stale-Unique :
    (c now : ℕ) (es : List Exchange)
    → Unique exchange_key es
    → Unique exchange_key (abandon_stale c now es)
unfolding abandon_stale
abandon_stale-Unique c now [] u = tt
abandon_stale-Unique c now (e ∷ es) u =
    elim (Bool-cases (is_processing_in c e && is_past e.lease_expires_at now)) [
      | inl past ↦ rw past (find-abandon_stale e.id c now es u.0, abandon_stale-Unique c now es u.1)
      | inr live ↦ rw live (find-abandon_stale e.id c now es u.0, abandon_stale-Unique c now es u.1)
    ]

collides-find :
    (e : Exchange) (es : List Exchange)
    → exists (collides e) es ≡ false
    → find exchange_key e.id es ≡ none
unfolding find first
collides-find e [] h = refl
collides-find e (x ∷ es) h = ground (arith, collides-find e es)

-- Identifiers stay distinct.
pub Reserves-Unique :
    (db db' : Database)
    → Reserves db db'
    → Unique exchange_key db.exchanges
    → Unique exchange_key db'.exchanges
Reserves-Unique db db' (unchanged e) u = rw e u
Reserves-Unique db db' (abandons c now e) u = rw e (abandon_stale-Unique c now db.exchanges u)
Reserves-Unique db db' (adds c now e status free written) u =
    rw written
      (collides-find e (stale c now db).exchanges free, abandon_stale-Unique c now db.exchanges u)
