-- ===== src/Examples.antt =====
-- Concrete inputs for the code of channels/, ingestion/chunking.py and retrieval/quality_repair/, and
-- tests and instances of the theorems on them.
pub mod Bindings
pub mod Outbound
pub mod System
pub mod Conversations
pub mod Answers
pub mod Grounded
pub mod Replayed
pub mod Formatted
pub mod Chunks
pub mod Evidence
pub mod Recipients
use legal_chatbot_ueb_demo_s.Prelude.{ℕ, String, Option, none, some, List, [], ◌∷◌}
use legal_chatbot_ueb_demo_s.Channels.Models.{BindingStatus, OutboundStatus, OutboundMessage}
use legal_chatbot_ueb_demo_s.Channels.Store.{Binding, Delivery, Database}

abbrev pub first_identity : String
first_identity = "aaaaaaaaaaaaaaaaaaaaaaaaaaaaaaaaaaaaaaaaaaaaaaaaaaaaaaaaaaaaaaaa"

abbrev pub second_identity : String
second_identity = "bbbbbbbbbbbbbbbbbbbbbbbbbbbbbbbbbbbbbbbbbbbbbbbbbbbbbbbbbbbbbbbb"

abbrev pub first_delivery : String
first_delivery = "dddddddddddddddddddddddddddddddddddddddddddddddddddddddddddddddd"

abbrev pub leased_binding : Binding
leased_binding = record {
  id = 1;
  identity_hmac = first_identity;
  status = BindingStatus.binding;
  conversation_id = none;
  lease_expires_at = some 5_000_000;
  safe_error_code = none;
  activated_at = none;
}

abbrev pub active_binding : Binding
active_binding = record {
  id = 2;
  identity_hmac = second_identity;
  status = BindingStatus.active;
  conversation_id = some 7;
  lease_expires_at = none;
  safe_error_code = none;
  activated_at = some 0;
}

abbrev pub pending_delivery : Delivery
pending_delivery = record {
  id = 1;
  binding_id = 2;
  exchange_id = 9;
  delivery_hmac = first_delivery;
  status = OutboundStatus.pending;
  safe_error_code = none;
  attempt_count = 0;
  sending_at = none;
  completed_at = none;
}

-- One identity is being bound, the other one has an answer that waits to be sent.
abbrev pub some_database : Database
some_database = record {
  bindings = leased_binding ∷ active_binding ∷ [];
  deliveries = pending_delivery ∷ [];
  conversations = 7 ∷ 8 ∷ [];
  exchanges = 9 ∷ [];
}

abbrev pub some_message : OutboundMessage
some_message = record {
  identity_hmac = second_identity;
  delivery_hmac = first_delivery;
  exchange_id = 9;
  text = b'o' ∷ b'k' ∷ [];
  citation_count = 0;
}
