-- ===== src/Channels/Bindings/Fencing.antt =====
-- `activate` and `fail` against the slots: only the holder of a live lease can settle a binding.
use legal_chatbot_ueb_demo_s.Prelude.{
  ℕ, ◌+◌, ◌≤◌, ◌<◌, String, ◌≡◌, ◌≢◌, ◌⊎◌, refl, none, some, List, [], ◌∷◌, err, arith, str_eq,
  eq_iff, Option-cases, inl, inr, if◌then◌else◌, true, false,
}
use text.Mathlib.TextPositions.{eq_refl}
use legal_chatbot_ueb_demo_s.Table.{
  exists, member, first, update, first_sound, find_sound, first-update, find-first,
}
use legal_chatbot_ueb_demo_s.Channels.Models.{
  binding_failed, BindingStatus, aware, seconds, valid_hmac, valid_safe_error_code,
  BindingReservation, BindingReservationStatus,
}
use legal_chatbot_ueb_demo_s.Channels.Store.{Binding, binding_key, Database}
use legal_chatbot_ueb_demo_s.Channels.Bindings.{
  by_identity, clashes, activated, failed_with, reserve, activate, fail,
}
use legal_chatbot_ueb_demo_s.Channels.Bindings.Validity.{IsValid, row, reserve-IsValid}
use legal_chatbot_ueb_demo_s.Channels.Bindings.Refinement.{
  leased, bound, broken, slot, slot_of, leased_to, Moves, reserve_refines,
}

-- The row behind a leased slot.
leased-row :
    (hmac : String) (db : Database) (id until : ℕ)
    → IsValid db
    → slot db hmac ≡ leased id until
    → (b : Binding) × (row db id ≡ some b)
      × (b.status ≡ BindingStatus.binding)
      × (b.lease_expires_at ≡ some until)
      × (first (by_identity hmac) db.bindings ≡ some b)
leased-row hmac db id until v h = elim (Option-cases (first (by_identity hmac) db.bindings)) [
  | inl gone ↦ absurd (ground arith)
  | inr (b, there) ↦ (
    b,
    ground (arith, find-first binding_key (by_identity hmac) db.bindings b v.ids there),
    ground arith,
    ground arith,
    there,
  )
]

unclashed_failed :
    (code : String) (b : Binding) (rs : List Binding)
    → exists (clashes (failed_with code b)) rs ≡ false
unfolding first
unclashed_failed code b [] = refl
unclashed_failed code b (r ∷ rs) = ground (arith, unclashed_failed code b rs)

abbrev pub active_with : ℕ → ℕ → BindingReservation
active_with id conversation = record {
  binding_id = id;
  status = BindingReservationStatus.active;
  conversation_id = some conversation;
  lease_expires_at = none;
}

abbrev pub failed_at : ℕ → BindingReservation
failed_at id = record {
  binding_id = id;
  status = BindingReservationStatus.failed;
  conversation_id = none;
  lease_expires_at = none;
}

-- In a table that meets its constraints, a reservation whose lease is not the one in the slot of its
-- binding, or has run out, settles nothing: `activate`, and `fail` with a well-formed code, raise
-- `BINDING_FAILED` and leave the database as it was.
pub stale_settles_nothing :
    (hmac : String) (db : Database) (id until lease now conversation : ℕ) (code : String)
    → IsValid db
    → slot db hmac ≡ leased id until
    → (lease ≢ until) ⊎ (until ≤ now)
    → valid_safe_error_code code ≡ true
    → (activate (leased_to id lease) conversation (aware now) db ≡ (err binding_failed, db))
      × (fail (leased_to id lease) code (aware now) db ≡ (err binding_failed, db))
unfolding activate fail
stale_settles_nothing hmac db id until lease now conversation code v held stale valid =
    let (b, here, status, expiry, _) = leased-row hmac db id until v held in
    (ground arith, ground arith)

-- A lease that has run out is fenced off: in a table that meets its constraints, once another call of
-- `reserve` for the identity, with a lease of some seconds and an unused row identifier, has taken the
-- slot over, the first holder can neither activate nor fail the binding, at whatever time it comes
-- back and with whatever conversation or well-formed code.
pub takeover_fences :
    (hmac : String) (db : Database) (id old fresh lease_seconds now later conversation : ℕ)
    (code : String)
    → IsValid db
    → slot db hmac ≡ leased id old
    → old ≤ now
    → 0 < lease_seconds
    → valid_hmac hmac ≡ true
    → row db fresh ≡ none
    → valid_safe_error_code code ≡ true
    → let taken = (reserve (λ d. d) fresh lease_seconds hmac (aware now) db).1 in
      (activate (leased_to id old) conversation (aware later) taken ≡ (err binding_failed, taken))
      × (fail (leased_to id old) code (aware later) taken ≡ (err binding_failed, taken))
takeover_fences hmac db id old fresh lease_seconds now later conversation code v held out pos valid
      new_id valid_code =
    let (_, slots) = reserve_refines fresh lease_seconds hmac now db v valid new_id in
    stale_settles_nothing hmac (reserve (λ d. d) fresh lease_seconds hmac (aware now) db).1 id
      (now + seconds lease_seconds) old later conversation code
      (reserve-IsValid (λ d. d) fresh lease_seconds hmac (aware now) db v v)
      (ground (arith, slots hmac, eq_refl hmac)) (inl (λ e. absurd (omega arith))) valid_code

-- The flush of a row that keeps its keys moves the slot of its identity only.
slot-update :
    (hmac : String) (db : Database) (b b' : Binding)
    → IsValid db
    → first (by_identity hmac) db.bindings ≡ some b
    → b'.id ≡ b.id
    → b'.identity_hmac ≡ b.identity_hmac
    → (j : String)
    → slot (record db { bindings = update binding_key b' db.bindings }) j
      ≡ (if str_eq hmac j then slot_of (some b') else slot db j)
slot-update hmac db b b' v there same_id same_identity j =
    let here = find-first binding_key (by_identity hmac) db.bindings b v.ids there in
    let mine = first_sound (by_identity hmac) db.bindings b there in
    let there' : row db b'.id ≡ some b = rw same_id here in
    let moved =
      first-update binding_key (by_identity j) b' b db.bindings v.ids there' (rw same_identity) in
    elim (Option-cases (first (by_identity j) db.bindings)) [
      | inl gone ↦ ground (arith, moved, eq_iff b.identity_hmac hmac, eq_iff hmac j)
      | inr (x, other) ↦ ground (
        arith,
        moved,
        find-first binding_key (by_identity j) db.bindings x v.ids other,
        first_sound (by_identity j) db.bindings x other,
        eq_iff b.identity_hmac hmac,
        eq_iff x.identity_hmac j,
        eq_iff hmac j,
      )
    ]

-- A conversation that no active row holds does not clash.
unheld-free :
    (b : Binding) (db : Database) (conversation : ℕ)
    → IsValid db
    → b.conversation_id ≡ some conversation
    → ((k : ℕ) (r : Binding)
        → row db k ≡ some r
        → r.status ≡ BindingStatus.active
        → r.conversation_id ≢ some conversation)
    → exists (clashes b) db.bindings ≡ false
unheld-free b db conversation v e unheld = elim (Option-cases (first (clashes b) db.bindings)) [
  | inl gone ↦ ground arith
  | inr (r, there) ↦ absurd (
      unheld r.id r (find-first binding_key (clashes b) db.bindings r v.ids there)
        (ground (arith, first_sound (clashes b) db.bindings r there))
        (ground (arith, first_sound (clashes b) db.bindings r there)))
]

module _ (hmac : String) (db : Database) (id until now : ℕ) (v : IsValid db)
    (held : slot db hmac ≡ leased id until) (live : now < until) where
  -- In a table that meets its constraints, the holder of a live lease activates its binding with a
  -- conversation that exists and that no active binding holds: `activate` returns the active
  -- binding, the slot of its identity becomes bound to the conversation, and no other slot moves.
  pub activate_refines :
      (conversation : ℕ)
      → member conversation db.conversations ≡ true
      → ((k : ℕ) (r : Binding)
          → row db k ≡ some r
          → r.status ≡ BindingStatus.active
          → r.conversation_id ≢ some conversation)
      → Moves hmac
          (bound id conversation, active_with id conversation)
          db
          (activate (leased_to id until) conversation (aware now) db)
  unfolding activate
  activate_refines conversation exists_there unheld =
      let (b, here, status, expiry, there) = leased-row hmac db id until v held in
      let free = unheld-free (activated conversation now b) db conversation v refl unheld in
      let same_id = find_sound binding_key id db.bindings b here in
      (
        ground arith,
        λ j.
            ground
              (arith, slot-update hmac db b (activated conversation now b) v there refl refl j),
      )

  -- In a table that meets its constraints, the holder of a live lease fails its binding with any
  -- well-formed code: `fail` returns the failed binding, the slot of its identity becomes one that
  -- may be reserved anew, and no other slot moves.
  pub fail_refines :
      (code : String)
      → valid_safe_error_code code ≡ true
      → Moves hmac (broken id, failed_at id) db (fail (leased_to id until) code (aware now) db)
  unfolding fail
  fail_refines code valid =
      let (b, here, status, expiry, there) = leased-row hmac db id until v held in
      let same_id = find_sound binding_key id db.bindings b here in
      (
        ground (arith, unclashed_failed code b db.bindings),
        λ j. ground (
          arith,
          unclashed_failed code b db.bindings,
          slot-update hmac db b (failed_with code b) v there refl refl j,
        ),
      )
