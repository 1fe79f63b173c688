-- ===== src/Channels/System/Steps.antt =====
-- One step of one handler of channels/service.py, over the repositories: what it keeps of the table
-- of deliveries, and what it may hand to the channel.
use legal_chatbot_ueb_demo_s.Prelude.{
  ℕ, ◌+◌, ◌≤◌, String, true, Option, none, some, List, [], ◌∷◌, Result, ok, err, ◌≡◌, refl, arith,
  str_eq, if◌then◌else◌, ◌&&◌, Option-cases, Bool-cases, inl, inr,
}
use legal_chatbot_ueb_demo_s.Channels.Models.{ErrorCode, OutboundMessage, OutboundReservation}
use legal_chatbot_ueb_demo_s.Channels.Store.{Database, Delivery}
use legal_chatbot_ueb_demo_s.Channels.Bindings.Frame.{Kept}
use legal_chatbot_ueb_demo_s.Channels.Outbound.{in_sending}
use legal_chatbot_ueb_demo_s.Channels.Outbound.Effects.{row, grant, Effect, nothing, EffectOf}
use legal_chatbot_ueb_demo_s.Channels.Outbound.Validity.{IsValid, Effect-IsValid}
use legal_chatbot_ueb_demo_s.Channels.Outbound.AtMostOnce.{
  permits, used, permits-used, AdvancedIn, Effect-Advances,
}
use legal_chatbot_ueb_demo_s.Channels.Outbound.Names.{Names, NamesOf, SameRow}
use legal_chatbot_ueb_demo_s.Channels.Service.{
  Reply, Handler, marking, sending, after_reserve_outbound, after_mark_sending,
}
use legal_chatbot_ueb_demo_s.Channels.Service.Branches.{is_calm}
use legal_chatbot_ueb_demo_s.Channels.System.{Fate, Progress, heard, goes}

-- How often the handler is allowed to send for the delivery.
abbrev pub ready : String → Handler → ℕ
ready hmac (sending binding_id message r) = if str_eq message.delivery_hmac hmac then 1 else 0
ready hmac _ = 0

-- The reservation that a handler of this delivery asks a send for names a row of the delivery.
abbrev pub Tied : String → Database → Handler → Type 0
Tied hmac db (marking binding_id message r) =
    str_eq message.delivery_hmac hmac ≡ true → Names message db r
Tied hmac db _ = Unit

abbrev pub handed_for : String → List OutboundMessage → ℕ
handed_for hmac [] = 0
handed_for hmac (m ∷ ms) = (if str_eq m.delivery_hmac hmac then 1 else 0) + handed_for hmac ms

-- Rows stay, and only move forward.
abbrev pub RowsAdvance : Database → Database → Type 0
RowsAdvance db db' = (k : ℕ) (d : Delivery) → row db k ≡ some d → AdvancedIn d (row db' k)

pub record Fine (hmac : String) (db : Database) (before : ℕ) (p : Progress) : Type 0 where
  pub valid : IsValid p.db
  pub tied : Tied hmac p.db p.next
  pub budget : handed_for hmac p.handed + ready hmac p.next + used hmac db ≤ before + used hmac p.db
  pub rows : RowsAdvance db p.db

pub heard_rule :
    {A : Type 0} (P : Database → Type 0) (fate : Fate) (db : Database)
    (out : Result ErrorCode A × Database)
    → P db
    → P out.1
    → P (heard fate db out).1
heard_rule P Fate.answered db (r, db') before after = after
heard_rule P Fate.lost db (r, db') before after = after
heard_rule P Fate.unreachable db (r, db') before after = before

pub kept-IsValid : (db db' : Database) → Kept db db' → IsValid db → IsValid db'
kept-IsValid db db' (same_rows, same_exchanges, same_bindings) v = record {
  ids = rw same_rows v.ids;
  shaped = rw same_rows v.shaped;
  checked =
      rw same_rows (λ k d here.
        ground (arith, v.checked k d here, same_exchanges, same_bindings d.binding_id));
  deliveries = rw same_rows v.deliveries;
  exchanges = rw same_rows v.exchanges;
  senders = rw same_rows v.senders;
}

pub kept-RowsAdvance : (db db' : Database) → db'.deliveries ≡ db.deliveries → RowsAdvance db db'
kept-RowsAdvance db db' same_rows k d here =
    rw same_rows (rw here (refl, refl, refl, refl, inl refl))

pub calm-Tied : (hmac : String) (db : Database) (h : Handler) → is_calm h ≡ true → Tied hmac db h
calm-Tied hmac db (marking binding_id message r) e = absurd (ground arith)
calm-Tied hmac db _ e = tt

pub calm-ready : (hmac : String) (h : Handler) → is_calm h ≡ true → ready hmac h ≡ 0
calm-ready hmac (sending binding_id message r) e = ground arith
calm-ready hmac _ e = refl

-- A step that leaves the deliveries alone and ends in a calm handler.
pub calm-Fine :
    (hmac : String) (db db' : Database) (next : Handler)
    → IsValid db
    → Kept db db'
    → is_calm next ≡ true
    → Fine hmac db 0 (record { next = next; db = db'; handed = [] })
calm-Fine hmac db db' next v kept calm =
    let same_rows = kept.0 in
    record {
      valid = kept-IsValid db db' kept v;
      tied = calm-Tied hmac db' next calm;
      budget = rw same_rows (omega (arith, calm-ready hmac next calm));
      rows = kept-RowsAdvance db db' same_rows;
    }

-- A step whose call has an effect on the deliveries.
pub moved-Fine :
    (hmac : String) (db db' : Database) (next : Handler) (g : Option ℕ)
    → IsValid db
    → Effect db g db'
    → Tied hmac db' next
    → ready hmac next ≤ permits hmac g db'
    → Fine hmac db 0 (record { next = next; db = db'; handed = [] })
moved-Fine hmac db db' next g v effect tied granted = record {
  valid = Effect-IsValid db g db' effect v;
  tied = tied;
  budget = omega (arith, granted, permits-used hmac db g db' effect v);
  rows = Effect-Advances db g db' effect;
}

after_reserve_outbound-Tied :
    (hmac : String) (binding_id : ℕ) (message : OutboundMessage) (db : Database)
    (r : OutboundReservation)
    → Names message db r
    → Tied hmac db (after_reserve_outbound binding_id message (ok r))
unfolding after_reserve_outbound
after_reserve_outbound-Tied hmac binding_id message db r names = ground arith

after_reserve_outbound-ready :
    (hmac : String) (binding_id : ℕ) (message : OutboundMessage) (reply : Reply OutboundReservation)
    → ready hmac (after_reserve_outbound binding_id message reply) ≡ 0
unfolding after_reserve_outbound
after_reserve_outbound-ready hmac binding_id message (err e) = refl
after_reserve_outbound-ready hmac binding_id message (ok r) = ground arith

after_mark_sending-Tied :
    (hmac : String) (binding_id : ℕ) (message : OutboundMessage) (db : Database)
    (reply : Reply OutboundReservation)
    → Tied hmac db (after_mark_sending binding_id message reply)
unfolding after_mark_sending
after_mark_sending-Tied hmac binding_id message db (err e) = tt
after_mark_sending-Tied hmac binding_id message db (ok r) = ground arith

after_mark_sending-ready :
    (hmac : String) (binding_id : ℕ) (message : OutboundMessage) (r : OutboundReservation)
    → ready hmac (after_mark_sending binding_id message (ok r))
      ≤ (if in_sending r.status && str_eq message.delivery_hmac hmac then 1 else 0)
unfolding after_mark_sending
after_mark_sending-ready hmac binding_id message r = ground arith

pub reserved-Fine :
    (hmac : String) (db : Database) (fate : Fate) (binding_id : ℕ) (message : OutboundMessage)
    (out : Result ErrorCode OutboundReservation × Database)
    → IsValid db
    → EffectOf db out
    → NamesOf message out
    → Fine hmac db 0 (goes (after_reserve_outbound binding_id message) (heard fate db out))
unfolding after_reserve_outbound
reserved-Fine hmac db Fate.answered binding_id message (ok r, db') v effect names =
    moved-Fine hmac db db' (after_reserve_outbound binding_id message (ok r)) (grant (ok r)) v
      effect (after_reserve_outbound-Tied hmac binding_id message db' r names)
      (omega (arith, after_reserve_outbound-ready hmac binding_id message (ok r)))
reserved-Fine hmac db Fate.answered binding_id message (err e, db') v effect names =
    moved-Fine hmac db db' _ none v effect tt (omega arith)
reserved-Fine hmac db Fate.lost binding_id message (r, db') v effect names =
    moved-Fine hmac db db' _ (grant r) v effect tt (omega arith)
reserved-Fine hmac db Fate.unreachable binding_id message (r, db') v effect names =
    moved-Fine hmac db db _ none v (nothing refl refl) tt (omega arith)

granted :
    (hmac : String) (db db' : Database) (message : OutboundMessage)
    (asked got : OutboundReservation)
    → (str_eq message.delivery_hmac hmac ≡ true → Names message db asked)
    → RowsAdvance db db'
    → (in_sending got.status ≡ true → got.outbound_id ≡ asked.outbound_id)
    → (if in_sending got.status && str_eq message.delivery_hmac hmac then 1 else 0)
      ≤ permits hmac (grant (ok got)) db'
granted hmac db db' message asked got names' rows same_row =
    elim (Bool-cases (str_eq message.delivery_hmac hmac)) [
      | inr other ↦ ground arith
      | inl mine ↦
          let names = names' mine in
          elim (Option-cases (row db asked.outbound_id)) [
            | inl gone ↦ absurd (rw gone at names)
            | inr (d, here) ↦ elim (Option-cases (row db' asked.outbound_id)) [
              | inl gone ↦ absurd (rw gone at (rows asked.outbound_id d here))
              | inr (d', there) ↦
                  let advanced = rw there at (rows asked.outbound_id d here) in
                  let named : d.delivery_hmac ≡ message.delivery_hmac = rw here at names in
                  elim (Bool-cases (in_sending got.status)) [
                    | inl yes' ↦
                        let same_id = same_row yes' in
                        ground (arith, same_id, advanced, named, there)
                    | inr no' ↦ ground arith
                  ]
            ]
          ]
    ]

pub marked-Fine :
    (hmac : String) (db : Database) (fate : Fate) (binding_id : ℕ) (message : OutboundMessage)
    (asked : OutboundReservation) (out : Result ErrorCode OutboundReservation × Database)
    → IsValid db
    → EffectOf db out
    → (str_eq message.delivery_hmac hmac ≡ true → Names message db asked)
    → SameRow asked out
    → Fine hmac db 0 (goes (after_mark_sending binding_id message) (heard fate db out))
unfolding after_mark_sending
marked-Fine hmac db Fate.answered binding_id message asked (ok r, db') v effect names same_row =
    moved-Fine hmac db db' (after_mark_sending binding_id message (ok r)) (grant (ok r)) v effect
      (after_mark_sending-Tied hmac binding_id message db' (ok r))
      (omega (
        arith,
        after_mark_sending-ready hmac binding_id message r,
        granted hmac db db' message asked r names (Effect-Advances db _ db' effect) same_row,
      ))
marked-Fine hmac db Fate.answered binding_id message asked (err e, db') v effect names same_row =
    moved-Fine hmac db db' _ none v effect tt (omega arith)
marked-Fine hmac db Fate.lost binding_id message asked (r, db') v effect names same_row =
    moved-Fine hmac db db' _ (grant r) v effect tt (omega arith)
marked-Fine hmac db Fate.unreachable binding_id message asked (r, db') v effect names same_row =
    moved-Fine hmac db db _ none v (nothing refl refl) tt (omega arith)
