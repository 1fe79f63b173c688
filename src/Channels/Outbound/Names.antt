-- ===== src/Channels/Outbound/Names.antt =====
-- Which row the reservation that a call of the outbound repository returns names.
use legal_chatbot_ueb_demo_s.Prelude.{
  ℕ, ◌≡◌, refl, Option, none, some, Result, ok, err, ◌&&◌, ◌==◌, true, arith, eq_iff, Option-cases,
  Bool-cases, Result-cases, inl, inr,
}
use legal_chatbot_ueb_demo_s.Table.{first, find, first_sound, find-first}
use legal_chatbot_ueb_demo_s.Channels.Models.{
  ErrorCode, Datetime, OutboundReservation, OutboundMessage,
}
use legal_chatbot_ueb_demo_s.Channels.Store.{
  Delivery, delivery_key, Database, Fault, unique_violation, Tx, transact, repository_now,
}
use legal_chatbot_ueb_demo_s.Channels.Outbound.{
  by_delivery, observe, insert_new, insert_or_race, reserve_after_unique_race, reserve_at, reserve,
  reserve_raced, mark_sending_tx, mark_sending, guarded, is_reserved, outbound_reservation, claim,
  locked_delivery, in_sending, is_pending, existing_delivery_reservation, flush_insert,
}
use legal_chatbot_ueb_demo_s.Channels.Outbound.Effects.{row, reported}
use legal_chatbot_ueb_demo_s.Channels.Outbound.Validity.{IsValid}

-- The row with this identifier is one of the delivery of the message.
abbrev RowOf : OutboundMessage → Option Delivery → Type 0
RowOf message none = ⊥
RowOf message (some d) = d.delivery_hmac ≡ message.delivery_hmac

-- A reservation names a row of the delivery of the message.
abbrev pub Names : OutboundMessage → Database → OutboundReservation → Type 0
Names message db r = RowOf message (row db r.outbound_id)

abbrev pub NamesOf : OutboundMessage → Result ErrorCode OutboundReservation × Database → Type 0
NamesOf message (ok r, db) = Names message db r
NamesOf message (err e, db) = Unit

transact-Names :
    (message : OutboundMessage) (tx : Tx OutboundReservation) (db : Database)
    → ((r : OutboundReservation) (db' : Database) → tx db ≡ ok (r, db') → Names message db' r)
    → NamesOf message (transact tx db)
transact-Names message tx db commits = go (tx db) refl
  where
    go :
        (o : Result Fault (OutboundReservation × Database))
        → tx db ≡ o
        → NamesOf message (transact (λ _. o) db)
    go (ok (r, db')) e = commits r db' e
    go (err f) e = tt

module _ (fresh binding_id : ℕ) (message : OutboundMessage) (db : Database) (v : IsValid db) where
  insert_new-Names :
      (r : OutboundReservation) (db' : Database)
      → insert_new fresh binding_id message db ≡ ok (r, db')
      → Names message db' r
  unfolding insert_new flush_insert outbound_reservation find
  insert_new-Names r db' h = ground arith

  observed-Names :
      (r : OutboundReservation) → observe binding_id message db ≡ ok (some r) → Names message db r
  unfolding observe existing_delivery_reservation outbound_reservation
  observed-Names r h =
      elim (Option-cases (first (by_delivery message.delivery_hmac) db.deliveries)) [
        | inl gone ↦ absurd (ground arith)
        | inr (d, there) ↦ ground (
          arith,
          find-first delivery_key (by_delivery message.delivery_hmac) db.deliveries d v.ids there,
          first_sound (by_delivery message.delivery_hmac) db.deliveries d there,
          eq_iff d.delivery_hmac message.delivery_hmac,
        )
      ]

  race-Names :
      (r : OutboundReservation) (db' : Database)
      → reserve_after_unique_race binding_id message db ≡ ok (r, db')
      → Names message db' r
  unfolding reserve_after_unique_race
  race-Names r db' h = ground (arith, observed-Names r)

  insert_or_race-Names :
      (o : Result Fault (OutboundReservation × Database))
      → insert_new fresh binding_id message db ≡ o
      → NamesOf message (insert_or_race binding_id message db o)
  unfolding insert_or_race
  insert_or_race-Names (ok (r, db')) e = insert_new-Names r db' e
  insert_or_race-Names (err unique_violation) e =
      transact-Names message (reserve_after_unique_race binding_id message) db race-Names
  insert_or_race-Names (err _) e = tt

  pub reserve-Names :
      (now : Datetime) → NamesOf message (reserve (λ d. d) fresh binding_id message now db)
  unfolding reserve
  reserve-Names now = elim (Result-cases (repository_now now)) [
    | inl (t, e) ↦ rw (e, reserve) (go (observe binding_id message db) refl)
    | inr (f, e) ↦ rw (e, reserve) tt
  ]
    where
      go :
          (o : Result Fault (Option OutboundReservation))
          → observe binding_id message db ≡ o
          → NamesOf message (reserve_at (λ d. d) fresh binding_id message db o)
      go (ok none) e = insert_or_race-Names _ refl
      go (ok (some r)) e = observed-Names r e
      go (err f) e = tt

  pub reserve_raced-Names :
      (now : Datetime) → NamesOf message (reserve_raced fresh binding_id message now db)
  unfolding reserve_raced
  reserve_raced-Names now = elim (Result-cases (repository_now now)) [
    | inl (t, e) ↦ rw (e, reserve_raced) (insert_or_race-Names _ refl)
    | inr (f, e) ↦ rw (e, reserve_raced) tt
  ]

-- A granted send is for the row of the reservation it was asked with.
abbrev pub SameRow : OutboundReservation → Result ErrorCode OutboundReservation × Database → Type 0
SameRow res (ok r, db) = in_sending r.status ≡ true → r.outbound_id ≡ res.outbound_id
SameRow res (err e, db) = Unit

claim-SameRow :
    (res : OutboundReservation) (t : ℕ) (d : Delivery) (db : Database) (r : OutboundReservation)
    (db' : Database)
    → claim res t d db ≡ ok (r, db')
    → in_sending r.status ≡ true
    → r.outbound_id ≡ res.outbound_id
unfolding claim
claim-SameRow res t d db r db' h s =
    elim (Bool-cases (is_pending d.status && d.attempt_count == 0)) [
      | inl free ↦ ground arith
      | inr taken ↦ ground (arith, reported d r)
    ]

pub mark_sending-SameRow :
    (res : OutboundReservation) (now : Datetime) (db : Database)
    → SameRow res (mark_sending res now db)
unfolding mark_sending mark_sending_tx
mark_sending-SameRow res now db = elim (Result-cases (guarded (is_reserved res.status) now)) [
  | inl (t, e) ↦ rw (e, mark_sending) (go t (mark_sending_tx res t db) refl)
  | inr (f, e) ↦ rw (e, mark_sending) tt
]
  where
    go :
        (t : ℕ) (o : Result Fault (OutboundReservation × Database))
        → mark_sending_tx res t db ≡ o
        → SameRow res (transact (λ _. o) db)
    go t (err f) e = tt
    go t (ok (r, db')) e = λ s. elim (Result-cases (locked_delivery res db)) [
      | inl (d, there) ↦ claim-SameRow res t d db r db' (ground arith) s
      | inr (f, there) ↦ absurd (ground arith)
    ]
