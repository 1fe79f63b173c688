-- ===== src/Channels/Bindings/Rules.antt =====
-- What the methods of the binding repository can leave behind: a property of the database holds after
-- a method if it held before and holds of whatever its transactions commit.
use legal_chatbot_ueb_demo_s.Prelude.{
  ℕ, ◌+◌, String, Bool, true, ◌≡◌, refl, some, Result, ok, err, ◌&&◌, Option-cases, Result-cases,
  inl, inr, arith,
}
use legal_chatbot_ueb_demo_s.Table.{first}
use legal_chatbot_ueb_demo_s.Channels.Models.{
  Datetime, seconds, BindingReservation, valid_hmac, valid_safe_error_code,
}
use legal_chatbot_ueb_demo_s.Channels.Store.{
  Binding, Database, Fault, unique_violation, Commits, transact_rule, repository_now,
}
use legal_chatbot_ueb_demo_s.Channels.Bindings.{
  by_identity, reserve_row, insert_new, insert_or_race, reserve_after_unique_race, reserve_at,
  reserve_time, reserve, settle, settle_guard, holds_token, activated, failed_with, activate, fail,
}

module _ (P : Database → Type 0) where
  -- Every `_reserve_existing` of a row that a select by identity finds commits into `P`.
  abbrev pub RowsCommit : String → Database → Type 0
  RowsCommit hmac db =
      (now lease : ℕ) (b : Binding)
      → first (by_identity hmac) db.bindings ≡ some b
      → Commits P (reserve_row b now lease) db

  race_rule :
      (hmac : String) (now lease : ℕ) (db : Database)
      → RowsCommit hmac db
      → Commits P (reserve_after_unique_race hmac now lease) db
  unfolding reserve_after_unique_race
  race_rule hmac now lease db rows r db' h =
      elim (Option-cases (first (by_identity hmac) db.bindings)) [
        | inl gone ↦ absurd (ground arith)
        | inr (b, there) ↦ rows now lease b there r db' (ground arith)
      ]

  pub insert_or_race_rule :
      (hmac : String) (now lease : ℕ) (db : Database)
      (o : Result Fault (BindingReservation × Database))
      → P db
      → RowsCommit hmac db
      → ((r : BindingReservation) (db' : Database) → o ≡ ok (r, db') → P db')
      → P (insert_or_race hmac now lease db o).1
  unfolding insert_or_race
  insert_or_race_rule hmac now lease db (ok (r, db')) h rows commits = commits r db' refl
  insert_or_race_rule hmac now lease db (err unique_violation) h rows commits =
      transact_rule P (reserve_after_unique_race hmac now lease) db h
        (race_rule hmac now lease db rows)
  insert_or_race_rule hmac now lease db (err _) h rows commits = h

  module _ (between : Database → Database) (fresh lease_seconds : ℕ) (hmac : String)
      (now : Datetime) (db : Database) (before : P db) (raced : P (between db))
      (inserts : valid_hmac hmac ≡ true
        → (lease : ℕ) → Commits P (insert_new fresh hmac lease) (between db))
      (rows : RowsCommit hmac db) (raced_rows : RowsCommit hmac (between db)) where
    reserve_at_rule :
        (t lease : ℕ) → valid_hmac hmac ≡ true → P (reserve_at between fresh hmac t lease db).1
    unfolding reserve_at
    reserve_at_rule t lease fits = elim (Option-cases (first (by_identity hmac) db.bindings)) [
      | inl absent ↦
          rw (absent, reserve_at)
            (insert_or_race_rule hmac t lease (between db)
              (insert_new fresh hmac lease (between db)) raced raced_rows (inserts fits lease))
      | inr (b, there) ↦
          rw (there, reserve_at)
            (transact_rule P (reserve_row b t lease) db before (rows t lease b there))
    ]

    time_fits : (t : ℕ) → reserve_time hmac now ≡ ok t → valid_hmac hmac ≡ true
    unfolding reserve_time
    time_fits t e = elim (Result-cases (repository_now now)) [
      | inl (t', e') ↦ ground arith
      | inr (f, e') ↦ absurd (ground arith)
    ]

    pub reserve_rule : P (reserve between fresh lease_seconds hmac now db).1
    unfolding reserve
    reserve_rule = elim (Result-cases (reserve_time hmac now)) [
      | inl (t, e) ↦ rw (e, reserve) (reserve_at_rule t (t + seconds lease_seconds) (time_fits t e))
      | inr (f, e) ↦ rw (e, reserve) before
    ]

  module _ (res : BindingReservation) (now : Datetime) (db : Database) (before : P db) where
    pub activate_rule :
        (conversation : ℕ)
        → ((t : ℕ) → Commits P (settle res (activated conversation t) t) db)
        → P (activate res conversation now db).1
    unfolding activate
    activate_rule conversation commits = elim (Result-cases (settle_guard (holds_token res) now)) [
      | inl (t, e) ↦
          rw (e, activate)
            (transact_rule P (settle res (activated conversation t) t) db before (commits t))
      | inr (f, e) ↦ rw (e, activate) before
    ]

    guard_holds : (guard : Bool) (t : ℕ) → settle_guard guard now ≡ ok t → guard ≡ true
    unfolding settle_guard
    guard_holds guard t e = elim (Result-cases (repository_now now)) [
      | inl (t', e') ↦ ground arith
      | inr (f, e') ↦ absurd (ground arith)
    ]

    pub fail_rule :
        (code : String)
        → (valid_safe_error_code code ≡ true
            → (t : ℕ) → Commits P (settle res (failed_with code) t) db)
        → P (fail res code now db).1
    unfolding fail
    fail_rule code commits =
        elim (Result-cases (settle_guard (holds_token res && valid_safe_error_code code) now)) [
          | inl (t, e) ↦
              let fits : valid_safe_error_code code ≡ true =
                ground (arith, guard_holds (holds_token res && valid_safe_error_code code) t e) in
              rw (e, fail)
                (transact_rule P (settle res (failed_with code) t) db before (commits fits t))
          | inr (f, e) ↦ rw (e, fail) before
        ]
