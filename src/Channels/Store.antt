-- ===== src/Channels/Store.antt =====
-- channels/orm.py and the parts that both classes of channels/repository.py share: the two tables,
-- a transaction that commits or rolls back, and what a raised exception becomes outside.
use legal_chatbot_ueb_demo_s.Prelude.{ℕ, String, Option, List, Result, ok, err, map_err, ◌≡◌, refl}
use legal_chatbot_ueb_demo_s.Channels.Models.{
  ErrorCode, persistence_failure, BindingStatus, OutboundStatus, Datetime, naive, aware,
}

-- A row of `channel_conversation_bindings`. The column `channel_kind` has one value only.
pub record Binding : Type 0 where
  pub id : ℕ
  pub identity_hmac : String
  pub status : BindingStatus
  pub conversation_id : Option ℕ
  pub lease_expires_at : Option ℕ
  pub safe_error_code : Option String
  pub activated_at : Option ℕ

abbrev pub binding_key : Binding → ℕ
binding_key b = b.id

-- A row of `channel_outbound_deliveries`.
pub record Delivery : Type 0 where
  pub id : ℕ
  pub binding_id : ℕ
  pub exchange_id : ℕ
  pub delivery_hmac : String
  pub status : OutboundStatus
  pub safe_error_code : Option String
  pub attempt_count : ℕ
  pub sending_at : Option ℕ
  pub completed_at : Option ℕ

abbrev pub delivery_key : Delivery → ℕ
delivery_key d = d.id

-- The two tables, and the identifiers that their foreign keys into the conversation tables may name.
pub record Database : Type 0 where
  pub bindings : List Binding
  pub deliveries : List Delivery
  pub conversations : List ℕ
  pub exchanges : List ℕ

-- What may be raised inside a transaction: a `ChannelError`, or an `IntegrityError` with or without
-- SQLSTATE 23505.
pub data Fault : Type 0 where
  channel_error : ErrorCode → Fault
  unique_violation : Fault
  integrity_violation : Fault

abbrev pub Tx : Type 0 → Type 0
Tx A = Database → Result Fault (A × Database)

-- `async with session.begin()`: commit on a return, roll back on an exception.
abbrev pub commit :
    {A : Type 0} → Database → Result Fault (A × Database) → Result Fault A × Database
commit db (ok (a, db')) = (ok a, db')
commit db (err f) = (err f, db)

-- `_persistence_error`, and the `except IntegrityError` clauses that end in the same error.
unfoldable pub to_channel_error : Fault → ErrorCode
to_channel_error (channel_error code) = code
to_channel_error unique_violation = persistence_failure
to_channel_error integrity_violation = persistence_failure

-- One transaction, seen from outside the method.
abbrev pub transact : {A : Type 0} → Tx A → Database → Result ErrorCode A × Database
transact tx db = let (r, db') = commit db (tx db) in (map_err to_channel_error r, db')

-- `P` holds of whatever a transaction commits.
abbrev pub Commits : {A : Type 0} → (Database → Type 0) → Tx A → Database → Type 0
Commits {A} P tx db = (r : A) (db' : Database) → tx db ≡ ok (r, db') → P db'

pub transact_rule :
    (P : Database → Type 0) {A : Type 0} (tx : Tx A) (db : Database)
    → P db
    → Commits P tx db
    → P (transact tx db).1
transact_rule P {A} tx db h commits = go (tx db) refl
  where
    go : (o : Result Fault (A × Database)) → tx db ≡ o → P (transact (λ _. o) db).1
    go (ok (r, db')) e = commits r db' e
    go (err f) e = h

-- `_repository_now`
unfoldable pub repository_now : Datetime → Result ErrorCode ℕ
repository_now (naive t) = err persistence_failure
repository_now (aware t) = ok t
