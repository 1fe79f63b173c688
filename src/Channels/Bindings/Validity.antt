-- ===== src/Channels/Bindings/Validity.antt =====
-- The constraints of `channel_conversation_bindings` as an invariant of the repository's methods.
use legal_chatbot_ueb_demo_s.Prelude.{
  ℕ, String, ◌≡◌, refl, Option, none, some, ◌∷◌, sym, true, false, ok, arith, eq_iff, Option-cases,
  inl, inr, ◌⊎◌, Bool-cases,
}
use mathlib.Core.Path.{subst}
use legal_chatbot_ueb_demo_s.Table.{
  is_some, exists, first, find, update, Unique, find_sound, find-update, update-Unique, find-first,
  first-none,
}
use legal_chatbot_ueb_demo_s.Channels.Models.{
  BindingStatus, Datetime, BindingReservation, valid_hmac, valid_optional_code,
}
use legal_chatbot_ueb_demo_s.Channels.Store.{Binding, binding_key, Database, Tx, Commits}
use legal_chatbot_ueb_demo_s.Channels.Bindings.Rules.{reserve_rule, activate_rule, fail_rule}
use legal_chatbot_ueb_demo_s.Channels.Bindings.{
  by_identity, clashes, known, flush_update, reserve_row, insert_new, settle, new_binding, rearm,
  activated, failed_with, reserve, activate, fail,
}

-- The CHECK constraint `status_shape`.
abbrev Shape : BindingStatus → Binding → Type 0
Shape BindingStatus.binding b =
    (b.conversation_id ≡ none)
    × (is_some b.lease_expires_at ≡ true)
    × (b.safe_error_code ≡ none)
    × (b.activated_at ≡ none)
Shape BindingStatus.active b =
    (is_some b.conversation_id ≡ true)
    × (b.lease_expires_at ≡ none)
    × (b.safe_error_code ≡ none)
    × (is_some b.activated_at ≡ true)
Shape BindingStatus.failed b =
    (b.lease_expires_at ≡ none) × (is_some b.safe_error_code ≡ true) × (b.activated_at ≡ none)

abbrev pub IsShaped : Binding → Type 0
IsShaped b = Shape b.status b

abbrev pub row : Database → ℕ → Option Binding
row db k = find binding_key k db.bindings

-- The other CHECK constraints, and the foreign key on the conversation. (The kind of the channel and
-- the status have one form only.)
abbrev pub IsChecked : Database → Binding → Type 0
IsChecked db b =
    (valid_hmac b.identity_hmac ≡ true)
    × (valid_optional_code b.safe_error_code ≡ true)
    × (known b.conversation_id db ≡ true)

-- The primary key, the unique indexes, the CHECK constraints and the foreign key.
pub record IsValid (db : Database) : Type 0 where
  pub ids : Unique binding_key db.bindings
  pub shaped : (k : ℕ) (b : Binding) → row db k ≡ some b → IsShaped b
  pub checked : (k : ℕ) (b : Binding) → row db k ≡ some b → IsChecked db b
  pub identities :
      (i j : ℕ) (b c : Binding)
      → row db i ≡ some b
      → row db j ≡ some c
      → b.identity_hmac ≡ c.identity_hmac
      → i ≡ j
  pub conversations :
      (i j : ℕ) (b c : Binding)
      → row db i ≡ some b
      → row db j ≡ some c
      → b.status ≡ BindingStatus.active
      → c.status ≡ BindingStatus.active
      → b.conversation_id ≡ c.conversation_id
      → i ≡ j

module _ (b b0 : Binding) (db : Database) (v : IsValid db) (here : row db b.id ≡ some b0) where
  row-update :
      (k : ℕ) (c : Binding)
      → find binding_key k (update binding_key b db.bindings) ≡ some c
      → ((k ≡ b.id) × (c ≡ b)) ⊎ (row db k ≡ some c)
  row-update k c h = ground (arith, find-update binding_key k b db.bindings)

-- No other active row holds the conversation of a row that passes the partial unique index.
clash_free :
    (b : Binding) (db : Database) (j : ℕ) (c : Binding)
    → exists (clashes b) db.bindings ≡ false
    → IsShaped b
    → row db j ≡ some c
    → b.status ≡ BindingStatus.active
    → c.status ≡ BindingStatus.active
    → b.conversation_id ≡ c.conversation_id
    → b.id ≡ j
clash_free b db j c free shape at sb sc e = ground (
  arith,
  first-none binding_key (clashes b) db.bindings j c,
  find_sound binding_key j db.bindings c,
)

module _ (b b0 : Binding) (db : Database) (v : IsValid db) (here : row db b.id ≡ some b0)
    (kept : b.identity_hmac ≡ b0.identity_hmac) (shape : IsShaped b)
    (code : valid_optional_code b.safe_error_code ≡ true) where
  abbrev written : Database
  written = record db { bindings = update binding_key b db.bindings }

  written-IsValid :
      exists (clashes b) db.bindings ≡ false → known b.conversation_id db ≡ true → IsValid written
  written-IsValid free there = record {
    ids = update-Unique binding_key b db.bindings v.ids;
    shaped = λ k c h. ground (arith, find-update binding_key k b db.bindings, v.shaped k c);
    checked = λ k c h.
        ground
          (arith, find-update binding_key k b db.bindings, v.checked k c, v.checked b.id b0 here);
    identities = λ i j c d p q e. ground (
      arith,
      find-update binding_key i b db.bindings,
      find-update binding_key j b db.bindings,
      v.identities i j c d,
      v.identities b.id j b0 d,
      v.identities i b.id c b0,
    );
    conversations = λ i j c d p q sc sd e. ground (
      arith,
      find-update binding_key i b db.bindings,
      find-update binding_key j b db.bindings,
      v.conversations i j c d,
      clash_free b db j d free shape,
      clash_free b db i c free shape,
    );
  }

  flushed : (db' : Database) → flush_update b db ≡ ok (tt, db') → IsValid db'
  unfolding flush_update
  flushed db' h = elim (Bool-cases (exists (clashes b) db.bindings)) [
    | inl clash ↦ absurd (ground arith)
    | inr free ↦ elim (Bool-cases (known b.conversation_id db)) [
      | inl there ↦ subst IsValid (ground arith) (written-IsValid free there)
      | inr unknown ↦ absurd (ground arith)
    ]
  ]

-- What a transaction commits is valid.
abbrev Keeps : {A : Type 0} → Tx A → Database → Type 0
Keeps tx db = Commits IsValid tx db

-- `_reserve_existing` leaves the table as it is, or rearms the row.
reserve_row-effect :
    (b : Binding) (now lease : ℕ) (db : Database) (r : BindingReservation) (db' : Database)
    → reserve_row b now lease db ≡ ok (r, db')
    → (db' ≡ db) ⊎ (flush_update (rearm b lease) db ≡ ok (tt, db'))
unfolding reserve_row
reserve_row-effect b now lease db r db' h = ground arith

reserve_row-Keeps :
    (b : Binding) (now lease : ℕ) (db : Database)
    → IsValid db
    → row db b.id ≡ some b
    → Keeps (reserve_row b now lease) db
unfolding reserve_row
reserve_row-Keeps b now lease db v here r db' h = elim (reserve_row-effect b now lease db r db' h) [
  | inl same_db ↦ subst IsValid (sym same_db) v
  | inr flush ↦ flushed (rearm b lease) b db v here refl (refl, refl, refl, refl) refl db' flush
]

settle-Keeps :
    (res : BindingReservation) (write : Binding → Binding) (now : ℕ) (db : Database)
    → IsValid db
    → ((b : Binding) → (write b).id ≡ b.id)
    → ((b : Binding) → (write b).identity_hmac ≡ b.identity_hmac)
    → ((b : Binding) → IsShaped (write b))
    → ((b : Binding) → valid_optional_code (write b).safe_error_code ≡ true)
    → Keeps (settle res write now) db
unfolding settle
settle-Keeps res write now db v same_id same_identity shape code r db' h =
    elim (Option-cases (row db res.binding_id)) [
      | inl gone ↦ absurd (ground arith)
      | inr (b, here) ↦
          flushed (write b) b db v
            (ground (arith, find_sound binding_key res.binding_id db.bindings b, same_id b))
            (same_identity b) (shape b) (code b) db' (ground arith)
    ]

module _ (fresh : ℕ) (hmac : String) (lease : ℕ) (db : Database) (v : IsValid db)
    (new_id : find binding_key fresh db.bindings ≡ none)
    (new_identity : first (by_identity hmac) db.bindings ≡ none)
    (fits : valid_hmac hmac ≡ true) where
  inserted : IsValid (record db { bindings = new_binding fresh hmac lease ∷ db.bindings })
  unfolding find
  inserted = record {
    ids = (new_id, v.ids);
    shaped = λ k c h. ground (arith, v.shaped k c);
    checked = λ k c h. ground (arith, v.checked k c);
    identities = λ i j c d p q e. ground (
      arith,
      v.identities i j c d,
      first-none binding_key (by_identity hmac) db.bindings i c new_identity,
      first-none binding_key (by_identity hmac) db.bindings j d new_identity,
      eq_iff c.identity_hmac hmac,
      eq_iff d.identity_hmac hmac,
    );
    conversations = λ i j c d p q sc sd e. ground (arith, v.conversations i j c d);
  }

insert_new-Keeps :
    (fresh : ℕ) (hmac : String) (lease : ℕ) (db : Database)
    → IsValid db
    → valid_hmac hmac ≡ true
    → Keeps (insert_new fresh hmac lease) db
unfolding insert_new
insert_new-Keeps fresh hmac lease db v fits r db' h =
    elim (Option-cases (find binding_key fresh db.bindings)) [
      | inr (b, there) ↦ absurd (ground arith)
      | inl new_id ↦ elim (Option-cases (first (by_identity hmac) db.bindings)) [
        | inr (b, there) ↦ absurd (ground arith)
        | inl new_identity ↦
            subst IsValid (ground arith) (inserted fresh hmac lease db v new_id new_identity fits)
      ]
    ]

-- A binding table that meets its constraints (keys, unique indexes, checks and the foreign key) meets
-- them after `reserve`, whatever other transaction commits between its select and its insert, provided
-- that one keeps them too.
pub reserve-IsValid :
    (between : Database → Database) (fresh lease_seconds : ℕ) (hmac : String) (now : Datetime)
    (db : Database)
    → IsValid db
    → IsValid (between db)
    → IsValid (reserve between fresh lease_seconds hmac now db).1
reserve-IsValid between fresh lease_seconds hmac now db v vb =
    reserve_rule IsValid between fresh lease_seconds hmac now db v vb
      (λ fits lease. insert_new-Keeps fresh hmac lease (between db) vb fits)
      (λ t lease b there.
        reserve_row-Keeps b t lease db v (find-first binding_key _ db.bindings b v.ids there))
      (λ t lease b there.
        reserve_row-Keeps b t lease (between db) vb
          (find-first binding_key _ (between db).bindings b vb.ids there))

-- A binding table that meets its constraints (keys, unique indexes, checks and the foreign key) meets
-- them after `activate`, and after `fail`, with any
-- arguments.
pub settled-IsValid :
    (res : BindingReservation) (conversation : ℕ) (code : String) (now : Datetime) (db : Database)
    → IsValid db
    → IsValid (activate res conversation now db).1 × IsValid (fail res code now db).1
settled-IsValid res conversation code now db v = (
  activate_rule IsValid res now db v conversation (λ t.
      settle-Keeps res (activated conversation t) t db v (λ b. refl) (λ b. refl)
        (λ b. (refl, refl, refl, refl)) (λ b. refl)),
  fail_rule IsValid res now db v code (λ fits t.
      settle-Keeps res (failed_with code) t db v (λ b. refl) (λ b. refl) (λ b. (refl, refl, refl))
        (λ b. fits)),
)
