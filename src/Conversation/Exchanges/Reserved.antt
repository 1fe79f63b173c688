-- ===== src/Conversation/Exchanges/Reserved.antt =====
-- What a `reserved` answer of `reserve` of conversation/repository.py tells of the database after it.
use legal_chatbot_ueb_demo_s.Prelude.{
  ℕ, suc, ◌+◌, ◌≡◌, refl, false, some, List, ◌∷◌, Text, String, Result, ok, err, arith,
  Option-cases, Result-cases, inl, inr,
}
use legal_chatbot_ueb_demo_s.Table.{exists, first, find, find_sound}
use legal_chatbot_ueb_demo_s.Unicode.{Unicode}
use legal_chatbot_ueb_demo_s.Channels.Models.{aware, seconds}
use legal_chatbot_ueb_demo_s.Conversation.Models.{ConversationRequest, ExchangeStatus, Settings}
use legal_chatbot_ueb_demo_s.Conversation.Store.{
  Exchange, Conversation, conversation_key, Database, Fault, conversation_error, validation_error,
  unique_violation, check_violation, foreign_key_violation, persisted_exchange,
}
use legal_chatbot_ueb_demo_s.Conversation.Queries.{
  by_key, compaction_plan, maximum_ordinal, locked_active_conversation, repository_now,
}
use legal_chatbot_ueb_demo_s.Conversation.Exchanges.{
  collides, flush_insert, existing_of_status, reservation_for_existing, busy_on_failure,
  reservation_after_race, new_exchange, delivery_key, reserve_new, reserve_tx, reserved_or_race,
  reserve_guard, reserve, Reservation, ReservationResult, reserved,
}
use legal_chatbot_ueb_demo_s.Conversation.Exchanges.Reserving.{stale, locked_found}

-- The row of a reservation, first in its table, and the rows before it.
pub record IsReserved (retained conversation_id : ℕ) (key : String) (lease : ℕ) (r : Reservation)
    (db : Database) : Type 0 where
  pub conversation : Conversation
  pub exchange : Exchange
  pub others : List Exchange
  pub found : find conversation_key r.conversation_id db.conversations ≡ some conversation
  pub version : conversation.state_version ≡ r.expected_state_version
  pub written : db.exchanges ≡ exchange ∷ others
  pub free : exists (collides exchange) others ≡ false
  pub same_id : exchange.id ≡ r.exchange_id
  pub same_conversation : exchange.conversation_id ≡ r.conversation_id
  pub asked : r.conversation_id ≡ conversation_id
  pub keyed : exchange.delivery_key ≡ key
  pub same_ordinal : exchange.ordinal ≡ r.ordinal
  pub processing : exchange.status ≡ ExchangeStatus.processing
  pub leased : exchange.lease_expires_at ≡ some lease
  pub plan : r.compacted ≡ compaction_plan retained r.conversation_id db.exchanges

module _ (u : Unicode) (sha256 : Text → String) (fresh : ℕ) (s : Settings)
    (request : ConversationRequest) (key : String) where
  existing_not_reserved :
      (status : ExchangeStatus) (e : Exchange) (r : Reservation)
      → existing_of_status u sha256 status e ≡ ok (reserved r)
      → ⊥
  unfolding existing_of_status
  existing_not_reserved ExchangeStatus.completed e r h = elim (Option-cases e.result) [
    | inl gone ↦ absurd (ground arith)
    | inr (c, there) ↦ elim (Result-cases (persisted_exchange u c)) [
      | inl (p, ok_one) ↦ absurd (ground arith)
      | inr (f, failed) ↦ absurd (ground arith)
    ]
  ]
  existing_not_reserved ExchangeStatus.processing e r h = absurd (ground arith)
  existing_not_reserved ExchangeStatus.failed e r h = absurd (ground arith)
  existing_not_reserved ExchangeStatus.abandoned e r h = absurd (ground arith)

  reserve_new-IsReserved :
      (c : Conversation) (now lease : ℕ) (db db' : Database) (r : Reservation)
      → find conversation_key request.conversation_id db.conversations ≡ some c
      → reserve_new u sha256 fresh lease s request key c now db ≡ ok (reserved r, db')
      → IsReserved s.retained_exchange_limit request.conversation_id key lease r db'
  unfolding reserve_new flush_insert
  reserve_new-IsReserved c now lease db db' r there h =
      let same_one = find_sound conversation_key request.conversation_id db.conversations c there in
      record {
        conversation = c;
        exchange =
            new_exchange u sha256 fresh request key (suc (maximum_ordinal c.id db.exchanges)) lease;
        others = db.exchanges;
        found = ground (arith, same_one);
        version = ground arith;
        written = ground arith;
        free = ground arith;
        same_id = ground arith;
        same_conversation = ground (arith, same_one);
        asked = ground (arith, same_one);
        keyed = refl;
        same_ordinal = ground arith;
        processing = refl;
        leased = refl;
        plan = ground arith;
      }

  reserve_tx-IsReserved :
      (t : ℕ) (db db' : Database) (r : Reservation)
      → reserve_tx u sha256 fresh s request key t db ≡ ok (reserved r, db')
      → IsReserved s.retained_exchange_limit request.conversation_id key
          (t + seconds s.processing_lease_seconds)
          r
          db'
  unfolding reserve_tx reservation_for_existing
  reserve_tx-IsReserved t db db' r h =
      elim (Result-cases (locked_active_conversation request.conversation_id t db)) [
        | inr (f, e) ↦ absurd (ground arith)
        | inl (c, e) ↦ elim (Option-cases (first (by_key c.id key) (stale c.id t db).exchanges)) [
          | inl gone ↦
              reserve_new-IsReserved c t (t + seconds s.processing_lease_seconds) (stale c.id t db)
                db' r (locked_found request.conversation_id t db c e) (ground arith)
          | inr (x, there) ↦ elim (Result-cases (existing_of_status u sha256 x.status x)) [
            | inl (q, existing) ↦ absurd (existing_not_reserved x.status x r (ground arith))
            | inr (f, failed) ↦ absurd (ground arith)
          ]
        ]
      ]

  race_not_reserved :
      (db : Database) (r : Reservation)
      → reservation_after_race u sha256 request key db ≡ ok (reserved r)
      → ⊥
  unfolding reservation_after_race reservation_for_existing busy_on_failure
  race_not_reserved db r h =
      elim (Option-cases (first (by_key request.conversation_id key) db.exchanges)) [
        | inl gone ↦ absurd (ground arith)
        | inr (x, there) ↦ elim (Result-cases (existing_of_status u sha256 x.status x)) [
          | inl (q, existing) ↦ existing_not_reserved x.status x r (ground arith)
          | inr (f, failed) ↦ absurd (ground arith)
        ]
      ]

  settled-IsReserved :
      (t : ℕ) (db db' : Database) (r : Reservation)
      (o : Result Fault (ReservationResult × Database))
      → reserve_tx u sha256 fresh s request key t db ≡ o
      → reserved_or_race u sha256 request key db o ≡ (ok (reserved r), db')
      → IsReserved s.retained_exchange_limit request.conversation_id key
          (t + seconds s.processing_lease_seconds)
          r
          db'
  unfolding reserved_or_race
  settled-IsReserved t db db' r (ok (q, db1)) e h = reserve_tx-IsReserved t db db' r (ground arith)
  settled-IsReserved t db db' r (err unique_violation) e h =
      elim (Result-cases (reservation_after_race u sha256 request key db)) [
        | inl (q, lost) ↦ absurd (race_not_reserved db r (ground arith))
        | inr (f, lost) ↦ absurd (ground arith)
      ]
  settled-IsReserved t db db' r (err (conversation_error code)) e h = absurd (ground arith)
  settled-IsReserved t db db' r (err validation_error) e h = absurd (ground arith)
  settled-IsReserved t db db' r (err check_violation) e h = absurd (ground arith)
  settled-IsReserved t db db' r (err foreign_key_violation) e h = absurd (ground arith)

pub reserve-IsReserved :
    (u : Unicode) (sha256 : Text → String) (fresh : ℕ) (s : Settings)
    (request : ConversationRequest) (t : ℕ) (db db' : Database) (r : Reservation)
    → reserve u sha256 fresh s request (aware t) db ≡ (ok (reserved r), db')
    → (key : String) × (delivery_key u sha256 request.delivery_id ≡ ok key)
      × IsReserved s.retained_exchange_limit request.conversation_id key
          (t + seconds s.processing_lease_seconds)
          r
          db'
unfolding reserve reserve_guard repository_now
reserve-IsReserved u sha256 fresh s request t db db' r h =
    elim (Result-cases (delivery_key u sha256 request.delivery_id)) [
      | inr (f, e) ↦ absurd (ground arith)
      | inl (key, e) ↦
          (key, e, settled-IsReserved u sha256 fresh s request key t db db' r _ refl (ground arith))
    ]
