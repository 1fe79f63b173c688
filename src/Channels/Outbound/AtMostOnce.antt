-- ===== src/Channels/Outbound/AtMostOnce.antt =====
-- Any sequence of calls of the outbound repository, from any number of handlers: one inbound delivery
-- is granted at most one send, and a row only moves forward.
use legal_chatbot_ueb_demo_s.Prelude.{
  ℕ, ◌+◌, ◌≤◌, ◌<◌, String, ◌≡◌, refl, ◌⊎◌, inl, inr, Option, none, some, List, [], ◌∷◌, Result,
  arith, eq_iff, Option-cases, true, if◌then◌else◌,
}
use legal_chatbot_ueb_demo_s.Table.{
  first, find, update, first_sound, find-update, first-update, find-first, first-none,
}
use legal_chatbot_ueb_demo_s.Channels.Models.{
  ErrorCode, OutboundStatus, Datetime, DeliveryReceipt, OutboundReservation, OutboundMessage,
}
use legal_chatbot_ueb_demo_s.Channels.Store.{Delivery, delivery_key, Database}
use legal_chatbot_ueb_demo_s.Channels.Outbound.{
  collides, by_delivery, reserve, reserve_raced, mark_sending, complete, claimed, completed,
}
use legal_chatbot_ueb_demo_s.Channels.Outbound.Effects.{
  row, grant, Effect, EffectOf, nothing, inserts, claims, completes, reserve-Effect,
  reserve_raced-Effect, mark_sending-Effect, complete-Effect,
}
use legal_chatbot_ueb_demo_s.Channels.Outbound.Validity.{IsValid, Effect-IsValid}

-- A call of the repository. One that is `racing` is a `reserve` whose select found no row before other
-- transactions committed.
pub data Call : Type 0 where
  reserving : ℕ → ℕ → OutboundMessage → Datetime → Call
  racing : ℕ → ℕ → OutboundMessage → Datetime → Call
  marking : OutboundReservation → Datetime → Call
  completing : OutboundReservation → DeliveryReceipt → Datetime → Call

unfoldable pub perform : Call → Database → Result ErrorCode OutboundReservation × Database
perform (reserving fresh binding_id message now) db =
    reserve (λ d. d) fresh binding_id message now db
perform (racing fresh binding_id message now) db = reserve_raced fresh binding_id message now db
perform (marking res now) db = mark_sending res now db
perform (completing res receipt now) db = complete res receipt now db

perform-Effect : (c : Call) (db : Database) → EffectOf db (perform c db)
unfolding perform
perform-Effect (reserving fresh binding_id message now) db =
    reserve-Effect fresh binding_id message now db
perform-Effect (racing fresh binding_id message now) db =
    reserve_raced-Effect fresh binding_id message now db
perform-Effect (marking res now) db = mark_sending-Effect res now db
perform-Effect (completing res receipt now) db = complete-Effect res receipt now db

unfoldable pub perform_all : List Call → Database → Database
unfolding perform
perform_all [] db = db
perform_all (c ∷ cs) db = perform_all cs (perform c db).1

-- From tables that meet the constraints on deliveries (keys, unique indexes, checks and foreign keys),
-- every sequence of calls of the outbound repository, lost races of inserts included, with any
-- arguments and at any times, leads to tables that meet them.
pub perform_all-IsValid :
    (calls : List Call) (db : Database) → IsValid db → IsValid (perform_all calls db)
unfolding perform_all
perform_all-IsValid [] db v = v
perform_all-IsValid (c ∷ cs) db v =
    perform_all-IsValid cs (perform c db).1
      (Effect-IsValid db (grant (perform c db).0) (perform c db).1 (perform-Effect c db) v)

-- How often one step grants a send of the delivery with this HMAC.
abbrev pub permits : String → Option ℕ → Database → ℕ
permits hmac none db = 0
permits hmac (some k) db = elim (row db k) [
  | none ↦ 0
  | some d ↦ if by_delivery hmac d then 1 else 0
]

-- How often a sequence of calls returns a `SENDING` reservation for the delivery.
unfoldable pub sends : String → List Call → Database → ℕ
unfolding perform
sends hmac [] db = 0
sends hmac (c ∷ cs) db =
    permits hmac (grant (perform c db).0) (perform c db).1 + sends hmac cs (perform c db).1

abbrev pub spent : OutboundStatus → ℕ
spent OutboundStatus.pending = 0
spent _ = 1

-- Whether the one send of the delivery has been granted.
abbrev pub used_by : Option Delivery → ℕ
used_by none = 0
used_by (some d) = spent d.status

abbrev pub used : String → Database → ℕ
used hmac db = used_by (first (by_delivery hmac) db.deliveries)

spent-completed :
    (d : Delivery) (receipt : DeliveryReceipt) (now : ℕ)
    → spent (completed receipt now d).status ≡ 1
spent-completed d receipt now = ground arith

module _ (hmac : String) (db : Database) (v : IsValid db) (d d' : Delivery)
    (here : row db d.id ≡ some d) (same_id : d'.id ≡ d.id)
    (same_hmac : d'.delivery_hmac ≡ d.delivery_hmac) where
  -- After the update of a row, the delivery is used as that row says, if it is its row.
  used-update :
      used hmac (record db { deliveries = update delivery_key d' db.deliveries })
      ≡ (if by_delivery hmac d then spent d'.status else used hmac db)
  used-update = elim (Option-cases (first (by_delivery hmac) db.deliveries)) [
    | inl gone ↦ ground (
      arith,
      first-update delivery_key (by_delivery hmac) d' d db.deliveries v.ids (rw same_id here)
          (rw same_hmac),
      first-none delivery_key (by_delivery hmac) db.deliveries d.id d gone here,
    )
    | inr (x, there) ↦ ground (
      arith,
      first-update delivery_key (by_delivery hmac) d' d db.deliveries v.ids (rw same_id here)
          (rw same_hmac),
      find-first delivery_key (by_delivery hmac) db.deliveries x v.ids there,
      first_sound (by_delivery hmac) db.deliveries x there,
      v.deliveries d.id x.id d x,
      eq_iff x.delivery_hmac hmac,
      eq_iff d.delivery_hmac hmac,
    )
  ]

  used-here : by_delivery hmac d ≡ true → used hmac db ≡ spent d.status
  used-here mine = elim (Option-cases (first (by_delivery hmac) db.deliveries)) [
    | inl gone ↦
        ground (arith, first-none delivery_key (by_delivery hmac) db.deliveries d.id d gone here)
    | inr (x, there) ↦ ground (
      arith,
      find-first delivery_key (by_delivery hmac) db.deliveries x v.ids there,
      first_sound (by_delivery hmac) db.deliveries x there,
      v.deliveries d.id x.id d x,
      eq_iff x.delivery_hmac hmac,
      eq_iff d.delivery_hmac hmac,
    )
  ]

pub used-le-one : (hmac : String) (db : Database) → used hmac db ≤ 1
used-le-one hmac db = ground arith

pub permits-used :
    (hmac : String) (db : Database) (g : Option ℕ) (db' : Database)
    → Effect db g db'
    → IsValid db
    → permits hmac g db' + used hmac db ≤ used hmac db'
unfolding first
permits-used hmac db g db' (nothing e same_db) v = ground arith
permits-used hmac db g db' (inserts d message e new_id free fits links fresh_row written) v =
    elim (Option-cases (first (by_delivery hmac) db.deliveries)) [
      | inl gone ↦ ground arith
      | inr (x, there) ↦ ground (
        arith,
        find-first delivery_key (by_delivery hmac) db.deliveries x v.ids there,
        first_sound (by_delivery hmac) db.deliveries x there,
        first-none delivery_key (collides d) db.deliveries x.id x,
        eq_iff x.delivery_hmac hmac,
        eq_iff d.delivery_hmac hmac,
        eq_iff x.delivery_hmac d.delivery_hmac,
      )
    ]
permits-used hmac db g db' (claims d now e here pending free written) v = ground (
  arith,
  find-update delivery_key d.id (claimed now d) db.deliveries,
  used-update hmac db v d (claimed now d) here refl refl,
  used-here hmac db v d (claimed now d) here refl refl,
)
permits-used hmac db g db' (completes d receipt now e here sending valid written) v = ground (
  arith,
  used-update hmac db v d (completed receipt now d) here refl refl,
  spent-completed d receipt now,
  used-le-one hmac db,
)

sends-used :
    (hmac : String) (calls : List Call) (db : Database)
    → IsValid db
    → sends hmac calls db + used hmac db ≤ 1
unfolding sends
sends-used hmac [] db v = omega (arith, used-le-one hmac db)
sends-used hmac (c ∷ cs) db v =
    let (r, db') = perform c db in
    let effect : Effect db (grant r) db' = perform-Effect c db in
    omega (
      arith,
      permits-used hmac db (grant r) db' effect v,
      sends-used hmac cs db' (Effect-IsValid db (grant r) db' effect v),
    )

-- From a table that meets its constraints, however many handlers call the repository in whatever
-- order, and however often a message is delivered again, at most one call is answered `SENDING` for
-- one delivery HMAC.
pub at_most_one_send :
    (hmac : String) (calls : List Call) (db : Database) → IsValid db → sends hmac calls db ≤ 1
at_most_one_send hmac calls db v = omega (arith, sends-used hmac calls db v)

-- Stages of the life of a row.
abbrev stage : OutboundStatus → ℕ
stage OutboundStatus.pending = 0
stage OutboundStatus.sending = 1
stage _ = 2

-- The row is as it was, or it is the same delivery at a later stage.
abbrev pub Advances : Delivery → Delivery → Type 0
Advances d d' =
    (d'.id ≡ d.id)
    × (d'.binding_id ≡ d.binding_id)
    × (d'.exchange_id ≡ d.exchange_id)
    × (d'.delivery_hmac ≡ d.delivery_hmac)
    × ((d' ≡ d) ⊎ (stage d.status < stage d'.status))

Advances-trans : {a b c : Delivery} → Advances a b → Advances b c → Advances a c
Advances-trans h k = ground arith

abbrev pub AdvancedIn : Delivery → Option Delivery → Type 0
AdvancedIn d none = ⊥
AdvancedIn d (some d') = Advances d d'

pub Effect-Advances :
    (db : Database) (g : Option ℕ) (db' : Database)
    → Effect db g db'
    → (k : ℕ) (d : Delivery) → row db k ≡ some d
    → AdvancedIn d (row db' k)
unfolding find
Effect-Advances db g db' (nothing e same_db) k d at_k = ground arith
Effect-Advances db g db' (inserts x message e new_id free fits links fresh_row written) k d at_k =
    ground arith
Effect-Advances db g db' (claims x now e here pending free written) k d at_k =
    ground (arith, find-update delivery_key k (claimed now x) db.deliveries)
Effect-Advances db g db' (completes x receipt now e here sending valid written) k d at_k =
    ground (arith, find-update delivery_key k (completed receipt now x) db.deliveries)

step-advances :
    (c : Call) (db : Database) (k : ℕ) (d : Delivery)
    → row db k ≡ some d
    → AdvancedIn d (row (perform c db).1 k)
step-advances c db = Effect-Advances db _ _ (perform-Effect c db)

-- A delivery row is never lost, whatever calls of the repository follow: it keeps its identifiers, and
-- it is as it was or at a later stage, from pending to sending and from there to a terminal status.
pub rows_advance :
    (calls : List Call) (db : Database) (k : ℕ) (d : Delivery)
    → row db k ≡ some d
    → (d' : Delivery) × (row (perform_all calls db) k ≡ some d') × Advances d d'
unfolding perform_all
rows_advance [] db k d at_k = (d, at_k, (refl, refl, refl, refl, inl refl))
rows_advance (c ∷ cs) db k d at_k = elim (Option-cases (row (perform c db).1 k)) [
  | inl gone ↦ absurd (rw gone at (step-advances c db k d at_k))
  | inr (d1, at1) ↦
      let (d2, at2, further) = rows_advance cs (perform c db).1 k d1 at1 in
      (
        d2,
        at2,
        Advances-trans {a = d} {b = d1} {c = d2} (rw at1 at (step-advances c db k d at_k)) further,
      )
]
