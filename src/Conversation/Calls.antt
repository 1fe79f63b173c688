-- ===== src/Conversation/Calls.antt =====
-- Sequences of calls of `PostgresConversationRepository`, conversation/repository.py, from any number
-- of services.
pub mod Once
pub mod Processing
use legal_chatbot_ueb_demo_s.Conversation.Models.{Settings, ConversationRequest}
use legal_chatbot_ueb_demo_s.Prelude.{ℕ, List, [], ◌∷◌, Text, String}
use legal_chatbot_ueb_demo_s.Unicode.{Unicode}
use legal_chatbot_ueb_demo_s.Channels.Models.{Datetime}
use legal_chatbot_ueb_demo_s.Conversation.Store.{ChatResult, Database}
use legal_chatbot_ueb_demo_s.Conversation.Exchanges.{Reservation, reserve, create_conversation}
use legal_chatbot_ueb_demo_s.Conversation.Completion.{StateUpdate, complete}

pub data Call : Type 0 where
  creating : ℕ → Datetime → Call
  reserving : ℕ → ConversationRequest → Datetime → Call
  completing : Reservation → ChatResult → StateUpdate → Datetime → Call

module _ (u : Unicode) (sha256 : Text → String) (s : Settings) where
  unfoldable pub perform : Call → Database → Database
  perform (creating fresh now) db = (create_conversation fresh s.retention_seconds now db).1
  perform (reserving fresh request now) db = (reserve u sha256 fresh s request now db).1
  perform (completing r chat up now) db =
      (complete u s.retention_seconds s.retained_exchange_limit r chat up now db).1

  unfoldable pub perform_all : List Call → Database → Database
  unfolding perform
  perform_all [] db = db
  perform_all (c ∷ cs) db = perform_all cs (perform c db)
