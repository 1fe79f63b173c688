-- ===== src/Conversation/Queries.antt =====
-- The helpers of conversation/repository.py over one conversation: its lock, the sweep of stale
-- exchanges, and the selects of reserve.
use legal_chatbot_ueb_demo_s.Prelude.{
  ℕ, ◌+◌, ◌-◌, max, String, Bool, true, false, not, ◌&&◌, Option, none, some, List, [], ◌∷◌, leb,
  ◌==◌, str_eq, if◌then◌else◌, length, take, Result, ok, err,
}
use legal_chatbot_ueb_demo_s.Table.{is_some, find}
use legal_chatbot_ueb_demo_s.Channels.Models.{Datetime, naive, aware}
use legal_chatbot_ueb_demo_s.Conversation.Models.{not_found, expired, state_invalid, ExchangeStatus}
use legal_chatbot_ueb_demo_s.Conversation.Store.{
  Exchange, Conversation, conversation_key, Database, Fault, conversation_error,
}

-- `_repository_now`
unfoldable pub repository_now : Datetime → Result Fault ℕ
repository_now (naive t) = err (conversation_error state_invalid)
repository_now (aware t) = ok t

abbrev pub is_processing : ExchangeStatus → Bool
is_processing ExchangeStatus.processing = true
is_processing _ = false

abbrev pub in_conversation : ℕ → Exchange → Bool
in_conversation conversation e = e.conversation_id == conversation

abbrev pub is_terminal_in : ℕ → Exchange → Bool
is_terminal_in conversation e = in_conversation conversation e && not (is_processing e.status)

abbrev pub is_processing_in : ℕ → Exchange → Bool
is_processing_in conversation e = in_conversation conversation e && is_processing e.status

abbrev pub by_key : ℕ → String → Exchange → Bool
by_key conversation key e = in_conversation conversation e && str_eq e.delivery_key key

-- `_require_active_conversation`
unfoldable pub require_active_conversation : Option Conversation → ℕ → Result Fault Conversation
require_active_conversation none now = err (conversation_error not_found)
require_active_conversation (some c) now =
    if is_some c.deleted_at
    then err (conversation_error not_found)
    else if leb c.expires_at now
    then err (conversation_error expired)
    else ok c

-- `_locked_active_conversation`
unfoldable pub locked_active_conversation : ℕ → ℕ → Database → Result Fault Conversation
unfolding require_active_conversation
locked_active_conversation id now db =
    require_active_conversation (find conversation_key id db.conversations) now

abbrev pub is_past : Option ℕ → ℕ → Bool
is_past none now = false
is_past (some lease) now = leb lease now

abbrev pub abandoned : Exchange → Exchange
abandoned e = record e {
  status = ExchangeStatus.abandoned;
  lease_expires_at = none;
  failure_reason = some "LEASE_EXPIRED";
}

-- `_abandon_stale_processing`
unfoldable pub abandon_stale : ℕ → ℕ → List Exchange → List Exchange
abandon_stale conversation now [] = []
abandon_stale conversation now (e ∷ es) =
    let rest = abandon_stale conversation now es in
    if is_processing_in conversation e && is_past e.lease_expires_at now
    then abandoned e ∷ rest
    else e ∷ rest

abbrev is_completed : ExchangeStatus → Bool
is_completed ExchangeStatus.completed = true
is_completed _ = false

abbrev pub is_completed_in : ℕ → Exchange → Bool
is_completed_in conversation e = in_conversation conversation e && is_completed e.status

-- `max(ordinal)` of the conversation, or 0
unfoldable pub maximum_ordinal : ℕ → List Exchange → ℕ
maximum_ordinal conversation [] = 0
maximum_ordinal conversation (e ∷ es) =
    let rest = maximum_ordinal conversation es in
    if in_conversation conversation e then max e.ordinal rest else rest

-- Rows in the order of their ordinals.
unfoldable pub insert_ordered : Exchange → List Exchange → List Exchange
insert_ordered e [] = e ∷ []
insert_ordered e (x ∷ xs) =
    let rest = insert_ordered e xs in if leb e.ordinal x.ordinal then e ∷ x ∷ xs else x ∷ rest

unfoldable pub terminal_rows : ℕ → List Exchange → List Exchange
unfolding insert_ordered
terminal_rows conversation [] = []
terminal_rows conversation (e ∷ es) =
    let rest = terminal_rows conversation es in
    if is_terminal_in conversation e then insert_ordered e rest else rest

unfoldable pub completed_rows : ℕ → List Exchange → List Exchange
unfolding insert_ordered
completed_rows conversation [] = []
completed_rows conversation (e ∷ es) =
    let rest = completed_rows conversation es in
    if is_completed_in conversation e then insert_ordered e rest else rest

abbrev pub ids : List Exchange → List ℕ
ids [] = []
ids (e ∷ es) = e.id ∷ ids es

-- The terminal exchanges that exceed the limit once one more is terminal, the oldest first.
unfoldable pub compacted_rows : ℕ → ℕ → List Exchange → List Exchange
unfolding terminal_rows
compacted_rows retained conversation es =
    let rows = terminal_rows conversation es in take (length rows + 1 - retained) rows

-- The identifiers of `_compaction_plan_for_reservation`.
unfoldable pub compaction_plan : ℕ → ℕ → List Exchange → List ℕ
unfolding compacted_rows
compaction_plan retained conversation es = ids (compacted_rows retained conversation es)
