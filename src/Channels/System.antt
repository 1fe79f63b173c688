-- ===== src/Channels/System.antt =====
-- Any number of handlers of channels/service.py over the two repositories of channels/repository.py
-- and one channel: a transaction of a repository, a call of the channel or of the conversation
-- service is one event, in any order. What the conversation service and the channel answer is up to
-- the event, and so is whether the answer of a committed transaction is lost on its way.
pub mod Steps
pub mod Advance
pub mod Deletion
pub mod Sends
use legal_chatbot_ueb_demo_s.Prelude.{
  ℕ, ◌+◌, zero, suc, String, Bool, Option, none, some, List, [], ◌∷◌, ◌++◌, if◌then◌else◌, Result,
  ok, err, map_err,
}
use legal_chatbot_ueb_demo_s.Table.{filter}
use legal_chatbot_ueb_demo_s.Unicode.{Unicode}
use legal_chatbot_ueb_demo_s.Conversation.Models.{ConversationResult}
use legal_chatbot_ueb_demo_s.Channels.Models.{
  ErrorCode, binding_activation_failed, Datetime, seconds, InboundMessage, OutboundMessage,
  FormattedReply, BindingReservation, OutboundReservation, DeliveryReceipt,
}
use legal_chatbot_ueb_demo_s.Channels.Store.{Database, Fault}
use legal_chatbot_ueb_demo_s.Channels.Bindings
use legal_chatbot_ueb_demo_s.Channels.Bindings.{known}
use legal_chatbot_ueb_demo_s.Channels.Outbound
use legal_chatbot_ueb_demo_s.Channels.Outbound.{linked}
use legal_chatbot_ueb_demo_s.Channels.Service.{
  Raised, channel_error, other, Reply, Handler, reserving_binding, creating_conversation,
  activating, failing, responding, reserving_outbound, marking, sending, completing, returned,
  handle_inbound, after_reserve_binding, after_create_conversation, after_activate, unavailable,
  after_respond, after_reserve_outbound, after_mark_sending, after_send, after_complete,
}

pub record Running : Type 0 where
  pub now : Datetime
  pub at : Handler

-- Whether the transaction of a repository call runs, and whether its caller hears of it.
pub data Fate : Type 0 where
  answered lost unreachable : Fate

pub record Answer (Chat : Type 0) : Type 0 where
  pub fate : Fate
  -- The select of `reserve` has seen the table before the last commits, and no row in it.
  pub raced : Bool
  -- The identifier that a new row is given.
  pub fresh : ℕ
  pub created : Reply ℕ
  pub responded : Reply (ConversationResult Chat)
  pub delivered : Reply DeliveryReceipt

-- The conversation tables change to hold the conversations and the exchanges with these identifiers.
pub data Event (Chat : Type 0) : Type 0 where
  arrives : InboundMessage → Datetime → Event Chat
  resumes : ℕ → Answer Chat → Event Chat
  conversations_change : List ℕ → List ℕ → Event Chat
  crashes : ℕ → Event Chat

-- The messages that were handed to the channel come latest first.
pub record World : Type 0 where
  pub db : Database
  pub handlers : List Running
  pub sent : List OutboundMessage

abbrev pub heard :
    {A : Type 0} → Fate → Database → Result ErrorCode A × Database → Reply A × Database
heard Fate.answered db (r, db') = (map_err channel_error r, db')
heard Fate.lost db (r, db') = (err other, db')
heard Fate.unreachable db (r, db') = (err other, db)

-- What one handler does: its next call, the database and what it hands to the channel.
pub record Progress : Type 0 where
  pub next : Handler
  pub db : Database
  pub handed : List OutboundMessage

abbrev pub goes : {A : Type 0} → (Reply A → Handler) → Reply A × Database → Progress
goes continue (reply, db) = record { next = continue reply; db = db; handed = [] }

abbrev pub stays : Handler → Database → Progress
stays next db = record { next = next; db = db; handed = [] }

-- The rows that the other tables still allow: the foreign keys are `ON DELETE CASCADE`, from a
-- conversation to its bindings, and from an exchange or a binding to its deliveries.
unfoldable pub cascade : Database → Database
unfolding filter
cascade db =
    let left = filter (λ b. known b.conversation_id db) db.bindings in
    record db {
      bindings = left;
      deliveries = filter (λ d. linked d (record db { bindings = left })) db.deliveries;
    }

-- What a transaction on the conversation tables leaves of the database.
unfoldable pub changed : List ℕ → List ℕ → Database → Database
unfolding cascade
changed conversations exchanges db =
    cascade (record db { conversations = conversations; exchanges = exchanges })

abbrev pub dropped : ℕ → List Running → List Running
dropped i [] = []
dropped zero (h ∷ hs) = hs
dropped (suc i) (h ∷ hs) = h ∷ dropped i hs

module _ (u : Unicode) {Chat : Type 0} (format : Chat → Reply FormattedReply)
    (lease_seconds : ℕ) where
  unfoldable pub advance : Answer Chat → Datetime → Handler → Database → Progress
  advance a now (reserving_binding m) db = goes (after_reserve_binding u m) (
      heard a.fate db (
        if a.raced
        then Bindings.reserve_raced a.fresh lease_seconds m.identity_hmac now db
        else Bindings.reserve (λ d. d) a.fresh lease_seconds m.identity_hmac now db))
  advance a now (creating_conversation m b) db =
      stays (after_create_conversation u m b a.created) db
  advance a now (activating m b conversation) db =
      goes (after_activate u m b conversation)
        (heard a.fate db (Bindings.activate b conversation now db))
  advance a now (failing b) db =
      goes (λ _. unavailable) (heard a.fate db (Bindings.fail b "BINDING_ACTIVATION_FAILED" now db))
  advance a now (responding m binding_id request) db =
      stays (after_respond u format m binding_id request a.responded) db
  advance a now (reserving_outbound binding_id message) db =
      goes (after_reserve_outbound binding_id message) (
        heard a.fate db (
          if a.raced
          then Outbound.reserve_raced a.fresh binding_id message now db
          else Outbound.reserve (λ d. d) a.fresh binding_id message now db))
  advance a now (marking binding_id message r) db =
      goes (after_mark_sending binding_id message)
        (heard a.fate db (Outbound.mark_sending r now db))
  advance a now (sending binding_id message r) db = record {
    next = after_send binding_id message r a.delivered;
    db = db;
    handed = message ∷ [];
  }
  advance a now (completing binding_id message r receipt) db =
      goes (after_complete binding_id message)
        (heard a.fate db (Outbound.complete r receipt now db))
  advance a now (returned outcome) db = stays (returned outcome) db

  -- The handler at this place of the list, where there is one, goes on.
  unfoldable pub resume : Answer Chat → ℕ → List Running → World → World
  unfolding advance
  resume a i [] w = record w { handlers = [] }
  resume a zero (h ∷ hs) w =
      let p = advance a h.now h.at w.db in
      record { db = p.db; handlers = record h { at = p.next } ∷ hs; sent = p.handed ++ w.sent }
  resume a (suc i) (h ∷ hs) w = let w' = resume a i hs w in record w' { handlers = h ∷ w'.handlers }

  unfoldable pub step : Event Chat → World → World
  unfolding resume handle_inbound changed
  step (arrives m now) w = record w {
    handlers = record { now = now; at = handle_inbound u m now } ∷ w.handlers;
  }
  step (resumes i a) w = resume a i w.handlers w
  step (conversations_change conversations exchanges) w = record w {
    db = changed conversations exchanges w.db;
  }
  step (crashes i) w = record w { handlers = dropped i w.handlers }

  unfoldable pub run : List (Event Chat) → World → World
  unfolding step
  run [] w = w
  run (e ∷ es) w = run es (step e w)

-- A database, before any message has arrived.
unfoldable pub starting : Database → World
starting db = record { db = db; handlers = []; sent = [] }
