-- ===== src/Conversation/Exchanges/Again.antt =====
-- `reserve` of conversation/repository.py for a delivery whose exchange is completed.
use legal_chatbot_ueb_demo_s.Prelude.{ℕ, ◌≡◌, some, Text, String, ok, arith}
use legal_chatbot_ueb_demo_s.Table.{first}
use legal_chatbot_ueb_demo_s.Unicode.{Unicode}
use legal_chatbot_ueb_demo_s.Channels.Models.{aware}
use legal_chatbot_ueb_demo_s.Conversation.Models.{ConversationRequest, ExchangeStatus, Settings}
use legal_chatbot_ueb_demo_s.Conversation.Store.{
  Stored, Exchange, Conversation, Database, persisted_exchange,
}
use legal_chatbot_ueb_demo_s.Conversation.Queries.{
  repository_now, by_key, abandon_stale, locked_active_conversation,
}
use legal_chatbot_ueb_demo_s.Conversation.Exchanges.{
  duplicate_completed, delivery_key, existing_of_status, reservation_for_existing, reserve_tx,
  reserved_or_race, reserve_guard, reserve,
}

module _ (u : Unicode) (sha256 : Text → String) (fresh : ℕ) (s : Settings)
    (request : ConversationRequest) (key : String) where
  existing_completed :
      (e : Exchange) (kept p : Stored)
      → e.status ≡ ExchangeStatus.completed
      → e.result ≡ some kept
      → persisted_exchange u kept ≡ ok p
      → reservation_for_existing u sha256 e ≡ ok (duplicate_completed e.conversation_id e.id p)
  unfolding reservation_for_existing existing_of_status
  existing_completed e kept p status there accepted = ground (arith, status, there, accepted)

  pub reserve_again :
      (t : ℕ) (db : Database) (c : Conversation) (e : Exchange) (kept p : Stored)
      → delivery_key u sha256 request.delivery_id ≡ ok key
      → locked_active_conversation request.conversation_id t db ≡ ok c
      → first (by_key c.id key) (abandon_stale c.id t db.exchanges) ≡ some e
      → e.status ≡ ExchangeStatus.completed
      → e.result ≡ some kept
      → persisted_exchange u kept ≡ ok p
      → (db' : Database) × (reserve u sha256 fresh s request (aware t) db
          ≡ (ok (duplicate_completed e.conversation_id e.id p), db'))
  unfolding reserve reserve_guard repository_now reserve_tx reserved_or_race
  reserve_again t db c e kept p keyed active there status result accepted =
      let existing = existing_completed e kept p status result accepted in
      (
        record db { exchanges = abandon_stale c.id t db.exchanges },
        ground (arith, keyed, active, there, existing),
      )
