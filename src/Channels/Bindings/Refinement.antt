-- ===== src/Channels/Bindings/Refinement.antt =====
-- What the binding repository promises, told without tables: each identity has a slot, and a method
-- moves the slot of one identity.
use legal_chatbot_ueb_demo_s.Prelude.{
  ℕ, ◌+◌, String, ◌≡◌, refl, Option, none, some, [], ◌∷◌, List, Result, ok, arith, str_eq, eq_iff,
  Option-cases, inl, inr, ltb, if◌then◌else◌, true, false,
}
use legal_chatbot_ueb_demo_s.Table.{exists, first, first_sound, first-update, find-first}
use legal_chatbot_ueb_demo_s.Channels.Models.{
  ErrorCode, BindingStatus, aware, seconds, valid_hmac, BindingReservation,
  BindingReservationStatus,
}
use legal_chatbot_ueb_demo_s.Channels.Store.{Binding, binding_key, Database, transact}
use legal_chatbot_ueb_demo_s.Channels.Bindings.{
  by_identity, reserve_row, reserve, reserve_at, clashes, rearm, insert_new, insert_or_race,
}
use legal_chatbot_ueb_demo_s.Channels.Bindings.Validity.{IsValid, row}

-- No row; a lease that runs until a time; a conversation; a failed activation.
pub data Slot : Type 0 where
  free : Slot
  leased : ℕ → ℕ → Slot
  bound : ℕ → ℕ → Slot
  broken : ℕ → Slot

abbrev slot_of_status : BindingStatus → Binding → Slot
slot_of_status BindingStatus.binding b = elim b.lease_expires_at [
  | none ↦ broken b.id
  | some lease ↦ leased b.id lease
]
slot_of_status BindingStatus.active b = elim b.conversation_id [
  | none ↦ broken b.id
  | some conversation ↦ bound b.id conversation
]
slot_of_status BindingStatus.failed b = broken b.id

abbrev pub slot_of : Option Binding → Slot
slot_of none = free
slot_of (some b) = slot_of_status b.status b

-- The slot of an identity, as a select by its HMAC shows it.
abbrev pub slot : Database → String → Slot
slot db hmac = slot_of (first (by_identity hmac) db.bindings)

abbrev pub leased_to : ℕ → ℕ → BindingReservation
leased_to id lease = record {
  binding_id = id;
  status = BindingReservationStatus.reserved;
  conversation_id = none;
  lease_expires_at = some lease;
}

-- The specification of `reserve`: a free, failed or expired slot is leased to the caller, a live
-- lease is reported as being processed, and a conversation is returned.
abbrev pub spec_reserve : ℕ → ℕ → ℕ → Slot → Slot × BindingReservation
spec_reserve fresh now lease free = (leased fresh lease, leased_to fresh lease)
spec_reserve fresh now lease (broken id) = (leased id lease, leased_to id lease)
spec_reserve fresh now lease (leased id until) =
    if ltb now until
    then (
      leased id until,
      record (leased_to id until) { status = BindingReservationStatus.processing },
    )
    else (leased id lease, leased_to id lease)
spec_reserve fresh now lease (bound id conversation) = (
  bound id conversation,
  record {
    binding_id = id;
    status = BindingReservationStatus.active;
    conversation_id = some conversation;
    lease_expires_at = none;
  },
)

-- A method call that moves the slot of one identity as the specification says.
abbrev pub Moves :
    String
    → Slot × BindingReservation
    → Database
    → Result ErrorCode BindingReservation × Database
    → Type 0
Moves hmac (to, res) db (r, db') =
    (r ≡ ok res) × ((j : String) → slot db' j ≡ (if str_eq hmac j then to else slot db j))

-- A row that is being bound clashes with none.
pub unclashed :
    (b : Binding) (rs : List Binding)
    → b.status ≡ BindingStatus.binding
    → exists (clashes b) rs ≡ false
unfolding first
unclashed b [] e = refl
unclashed b (r ∷ rs) e = ground (arith, unclashed b rs)

module _ (hmac : String) (fresh now lease : ℕ) (db : Database) (v : IsValid db) where
  reserve_row-Moves :
      (b : Binding)
      → first (by_identity hmac) db.bindings ≡ some b
      → Moves hmac
          (spec_reserve fresh now lease (slot db hmac))
          db
          (transact (reserve_row b now lease) db)
  unfolding reserve_row
  reserve_row-Moves b there =
      let here : row db b.id ≡ some b = find-first binding_key _ db.bindings b v.ids there in
      let mine : str_eq b.identity_hmac hmac ≡ true = first_sound _ db.bindings b there in
      let shape = v.shaped b.id b here in
      (
        ground (arith, unclashed (rearm b lease) db.bindings refl),
        λ j. elim (Option-cases (first (by_identity j) db.bindings)) [
          | inl gone ↦ ground (
            arith,
            unclashed (rearm b lease) db.bindings refl,
            first-update binding_key (by_identity j) (rearm b lease) b db.bindings v.ids here refl,
            eq_iff b.identity_hmac hmac,
            eq_iff hmac j,
          )
          | inr (x, other) ↦ ground (
            arith,
            unclashed (rearm b lease) db.bindings refl,
            first-update binding_key (by_identity j) (rearm b lease) b db.bindings v.ids here refl,
            find-first binding_key (by_identity j) db.bindings x v.ids other,
            first_sound (by_identity j) db.bindings x other,
            eq_iff b.identity_hmac hmac,
            eq_iff x.identity_hmac j,
            eq_iff hmac j,
          )
        ],
      )

  insert_new-Moves :
      first (by_identity hmac) db.bindings ≡ none
      → row db fresh ≡ none
      → Moves hmac
          (leased fresh lease, leased_to fresh lease)
          db
          (insert_or_race hmac now lease db (insert_new fresh hmac lease db))
  unfolding insert_or_race insert_new first
  insert_new-Moves absent new_id = (ground arith, λ j. ground (arith, eq_iff hmac j))

  reserve_at-Moves :
      row db fresh ≡ none
      → Moves hmac
          (spec_reserve fresh now lease (slot db hmac))
          db
          (reserve_at (λ d. d) fresh hmac now lease db)
  unfolding reserve_at
  reserve_at-Moves new_id = elim (Option-cases (first (by_identity hmac) db.bindings)) [
    | inl absent ↦ rw (absent, reserve_at) (insert_new-Moves absent new_id)
    | inr (b, there) ↦ rw (there, reserve_at) (rw there at (reserve_row-Moves b there))
  ]

-- `reserve` implements its specification: on a table that meets its constraints, at an aware time, for
-- a well-formed identity and an unused row identifier, it returns the reservation that the slot of the
-- identity calls for, moves that slot as specified, and leaves the slot of every other identity alone.
pub reserve_refines :
    (fresh lease_seconds : ℕ) (hmac : String) (now : ℕ) (db : Database)
    → IsValid db
    → valid_hmac hmac ≡ true
    → row db fresh ≡ none
    → Moves hmac
        (spec_reserve fresh now (now + seconds lease_seconds) (slot db hmac))
        db
        (reserve (λ d. d) fresh lease_seconds hmac (aware now) db)
unfolding reserve
reserve_refines fresh lease_seconds hmac now db v valid new_id =
    rw (valid, reserve) (reserve_at-Moves hmac fresh now (now + seconds lease_seconds) db v new_id)

module _ (between : Database → Database) (fresh : ℕ) (hmac : String) (now lease : ℕ) (db : Database)
    (absent : first (by_identity hmac) db.bindings ≡ none) where
  reserve_at_race :
      reserve_at between fresh hmac now lease db
      ≡ reserve_at (λ d. d) fresh hmac now lease (between db)
  unfolding reserve_at
  reserve_at_race = elim (Option-cases (first (by_identity hmac) (between db).bindings)) [
    | inl still ↦ ground arith
    | inr (b, there) ↦ ground arith
  ]

-- A lost insert race is repaired: when the select finds no row, `reserve` of a well-formed identity at
-- an aware time does to the database that a racing transaction leaves exactly what it does to it when
-- it starts after that transaction.
pub reserve_race :
    (between : Database → Database) (fresh lease_seconds : ℕ) (hmac : String) (now : ℕ)
    (db : Database)
    → valid_hmac hmac ≡ true
    → first (by_identity hmac) db.bindings ≡ none
    → reserve between fresh lease_seconds hmac (aware now) db
      ≡ reserve (λ d. d) fresh lease_seconds hmac (aware now) (between db)
unfolding reserve
reserve_race between fresh lease_seconds hmac now db valid absent =
    rw (valid, reserve)
      (reserve_at_race between fresh hmac now (now + seconds lease_seconds) db absent)
