-- ===== src/Channels/Bindings/Permanence.antt =====
-- Any sequence of calls of the binding repository, from any number of handlers.
use legal_chatbot_ueb_demo_s.Prelude.{
  ℕ, String, ◌≡◌, refl, ◌⊎◌, inl, inr, some, List, [], ◌∷◌, ok, arith, eq_iff, Option-cases, ◌≢◌,
}
use legal_chatbot_ueb_demo_s.Table.{first, update, first-update, find_sound, find-first}
use legal_chatbot_ueb_demo_s.Channels.Models.{BindingStatus, Datetime, BindingReservation}
use legal_chatbot_ueb_demo_s.Channels.Store.{Binding, binding_key, Database, Commits}
use legal_chatbot_ueb_demo_s.Channels.Bindings.{
  by_identity, settle, reserve_row, insert_new, reserve, activate, fail, rearm, activated,
  failed_with,
}
use legal_chatbot_ueb_demo_s.Channels.Bindings.Rules.{reserve_rule, activate_rule, fail_rule}
use legal_chatbot_ueb_demo_s.Channels.Bindings.Validity.{
  IsValid, row, reserve-IsValid, settled-IsValid,
}
use legal_chatbot_ueb_demo_s.Channels.Bindings.Refinement.{bound, slot}

pub data Call : Type 0 where
  reserving : ℕ → ℕ → String → Datetime → Call
  activating : BindingReservation → ℕ → Datetime → Call
  failing : BindingReservation → String → Datetime → Call

unfoldable pub perform : Call → Database → Database
perform (reserving fresh lease hmac now) db = (reserve (λ d. d) fresh lease hmac now db).1
perform (activating res conversation now) db = (activate res conversation now db).1
perform (failing res code now) db = (fail res code now db).1

unfoldable pub perform_all : List Call → Database → Database
unfolding perform
perform_all [] db = db
perform_all (c ∷ cs) db = perform_all cs (perform c db)

perform-IsValid : (c : Call) (db : Database) → IsValid db → IsValid (perform c db)
unfolding perform
perform-IsValid (reserving fresh lease hmac now) db v =
    reserve-IsValid (λ d. d) fresh lease hmac now db v v
perform-IsValid (activating res conversation now) db v =
    (settled-IsValid res conversation "" now db v).0
perform-IsValid (failing res code now) db v = (settled-IsValid res 0 code now db v).1

-- What `_reserve_existing` and `settle` commit.
rearmed :
    (b : Binding) (now lease : ℕ) (db : Database) (r : BindingReservation) (db' : Database)
    → reserve_row b now lease db ≡ ok (r, db')
    → (db' ≡ db)
      ⊎ ((b.status ≢ BindingStatus.active)
          × (db' ≡ record db { bindings = update binding_key (rearm b lease) db.bindings }))
unfolding reserve_row
rearmed b now lease db r db' h = ground arith

settled :
    (res : BindingReservation) (write : Binding → Binding) (now : ℕ) (db : Database)
    (r : BindingReservation) (db' : Database)
    → settle res write now db ≡ ok (r, db')
    → (b : Binding) × (row db res.binding_id ≡ some b)
      × (b.status ≢ BindingStatus.active)
      × (db' ≡ record db { bindings = update binding_key (write b) db.bindings })
unfolding settle
settled res write now db r db' h = elim (Option-cases (row db res.binding_id)) [
  | inl gone ↦ absurd (ground arith)
  | inr (b, here) ↦ (b, here, ground arith, ground arith)
]

-- A flush of a row that is not active leaves a bound slot alone.
module _ (hmac : String) (id conversation : ℕ) (db : Database) (v : IsValid db)
    (at_now : slot db hmac ≡ bound id conversation) where
  update-keeps :
      (b b' : Binding)
      → row db b.id ≡ some b
      → b.status ≢ BindingStatus.active
      → b'.id ≡ b.id
      → b'.identity_hmac ≡ b.identity_hmac
      → slot (record db { bindings = update binding_key b' db.bindings }) hmac
        ≡ bound id conversation
  update-keeps b b' here idle same_id same_identity =
      elim (Option-cases (first (by_identity hmac) db.bindings)) [
        | inl gone ↦ absurd (ground arith)
        | inr (x, there) ↦ ground (
          arith,
          first-update binding_key (by_identity hmac) b' b db.bindings v.ids (rw same_id here)
              (rw same_identity),
          find-first binding_key (by_identity hmac) db.bindings x v.ids there,
        )
      ]

  abbrev IsHeld : Database → Type 0
  IsHeld d = slot d hmac ≡ bound id conversation

  row-keeps :
      (now lease : ℕ) (b : Binding)
      → row db b.id ≡ some b
      → Commits IsHeld (reserve_row b now lease) db
  unfolding reserve_row
  row-keeps now lease b here r db' h = elim (rearmed b now lease db r db' h) [
    | inl same_db ↦ rw same_db at_now
    | inr (idle, written) ↦ rw written (update-keeps b (rearm b lease) here idle refl refl)
  ]

  insert-keeps : (fresh lease : ℕ) (h : String) → Commits IsHeld (insert_new fresh h lease) db
  unfolding insert_new first
  insert-keeps fresh lease h r db' e = ground (arith, eq_iff h hmac)

  settle-keeps :
      (res : BindingReservation) (write : Binding → Binding) (now : ℕ)
      → ((b : Binding) → (write b).id ≡ b.id)
      → ((b : Binding) → (write b).identity_hmac ≡ b.identity_hmac)
      → Commits IsHeld (settle res write now) db
  unfolding settle
  settle-keeps res write now same_id same_identity r db' e =
      let (b, here, idle, written) = settled res write now db r db' e in
      rw written (
        update-keeps b (write b)
          (ground (arith, find_sound binding_key res.binding_id db.bindings b)) idle (same_id b)
          (same_identity b))

  perform-keeps : (c : Call) → IsHeld (perform c db)
  unfolding perform
  perform-keeps (reserving fresh lease h now) =
      reserve_rule IsHeld (λ d. d) fresh lease h now db at_now at_now
        (λ _ until. insert-keeps fresh until h)
        (λ t until b there.
          row-keeps t until b (find-first binding_key _ db.bindings b v.ids there))
        (λ t until b there.
          row-keeps t until b (find-first binding_key _ db.bindings b v.ids there))
  perform-keeps (activating res c now) =
      activate_rule IsHeld res now db at_now c
        (λ t. settle-keeps res (activated c t) t (λ b. refl) (λ b. refl))
  perform-keeps (failing res code now) =
      fail_rule IsHeld res now db at_now code
        (λ _ t. settle-keeps res (failed_with code) t (λ b. refl) (λ b. refl))

-- In a table that meets its constraints, an identity that is bound to a conversation stays bound to
-- it, by the same binding, whatever calls of the repository follow, with whatever arguments and times.
pub bound_forever :
    (calls : List Call) (hmac : String) (id conversation : ℕ) (db : Database)
    → IsValid db
    → slot db hmac ≡ bound id conversation
    → slot (perform_all calls db) hmac ≡ bound id conversation
unfolding perform_all
bound_forever [] hmac id conversation db v at_now = at_now
bound_forever (c ∷ calls) hmac id conversation db v at_now =
    bound_forever calls hmac id conversation (perform c db) (perform-IsValid c db v)
      (perform-keeps hmac id conversation db v at_now c)
