-- ===== src/Channels/Service/Branches.antt =====
-- Where the handler of channels/service.py goes from each of its awaits.
use legal_chatbot_ueb_demo_s.Prelude.{
  ℕ, Bool, true, false, Option, none, some, ok, err, ◌≡◌, refl, arith, Option-cases, inl, inr,
}
use legal_chatbot_ueb_demo_s.Unicode.{Unicode}
use legal_chatbot_ueb_demo_s.Conversation.Models.{
  ConversationErrorCode, ConversationResult, ExchangeStatus, ConversationRequest,
}
use legal_chatbot_ueb_demo_s.Channels.Models.{
  Datetime, InboundMessage, inbound_message, OutboundMessage, FormattedReply, BindingReservation,
  OutboundReservation,
}
use legal_chatbot_ueb_demo_s.Channels.Service.{
  handle_inbound, conversation_error, Reply, Handler, marking, sending, after_reserve_binding,
  after_create_conversation, after_activate, after_respond, to_respond, after_complete,
  conversation_error_receipt, on_result, to_outbound, sendable,
}

-- A handler that is neither about to ask for a send nor granted one.
abbrev pub is_calm : Handler → Bool
is_calm (marking binding_id message r) = false
is_calm (sending binding_id message r) = false
is_calm _ = true

module _ (u : Unicode) where
  to_respond-calm :
      (m : InboundMessage) (b : BindingReservation) → is_calm (to_respond u m b) ≡ true
  unfolding to_respond
  to_respond-calm m b = elim (Option-cases b.conversation_id) [
    | inl gone ↦ ground arith
    | inr (c, there) ↦ ground arith
  ]

  pub after_reserve_binding-calm :
      (m : InboundMessage) (reply : Reply BindingReservation)
      → is_calm (after_reserve_binding u m reply) ≡ true
  unfolding after_reserve_binding
  after_reserve_binding-calm m (err e) = refl
  after_reserve_binding-calm m (ok b) = ground (arith, to_respond-calm m b)

  pub after_create-calm :
      (m : InboundMessage) (b : BindingReservation) (reply : Reply ℕ)
      → is_calm (after_create_conversation u m b reply) ≡ true
  unfolding after_create_conversation
  after_create-calm m b (err e) = refl
  after_create-calm m b (ok c) = refl

  pub after_activate-calm :
      (m : InboundMessage) (b : BindingReservation) (c : ℕ) (reply : Reply BindingReservation)
      → is_calm (after_activate u m b c reply) ≡ true
  unfolding after_activate
  after_activate-calm m b c (err e) = refl
  after_activate-calm m b c (ok a) = ground (arith, to_respond-calm m a)

  pub handle_inbound-calm :
      (m : InboundMessage) (now : Datetime) → is_calm (handle_inbound u m now) ≡ true
  unfolding handle_inbound
  handle_inbound-calm m now = elim (Option-cases (inbound_message u m)) [
    | inl bad ↦ ground (arith, bad)
    | inr (message, there) ↦ ground (arith, there)
  ]

conversation_error-calm :
    (code : ConversationErrorCode) → is_calm (conversation_error_receipt code) ≡ true
unfolding conversation_error_receipt
conversation_error-calm code = ground arith

pub after_complete-calm :
    (binding_id : ℕ) (message : OutboundMessage) (reply : Reply OutboundReservation)
    → is_calm (after_complete binding_id message reply) ≡ true
unfolding after_complete
after_complete-calm binding_id message (err e) = refl
after_complete-calm binding_id message (ok r) = ground arith

module _ (u : Unicode) {Chat : Type 0} (format : Chat → Reply FormattedReply) where
  sendable-calm :
      (binding_id : ℕ) (message : Option OutboundMessage)
      → is_calm (sendable u format binding_id message) ≡ true
  unfolding sendable
  sendable-calm binding_id none = refl
  sendable-calm binding_id (some message) = refl

  to_outbound-calm :
      (m : InboundMessage) (binding_id exchange_id : ℕ) (reply : Reply FormattedReply)
      → is_calm (to_outbound u format m binding_id exchange_id reply) ≡ true
  unfolding to_outbound
  to_outbound-calm m binding_id exchange_id (err e) = refl
  to_outbound-calm m binding_id exchange_id (ok reply) = sendable-calm binding_id _

  on_result-calm :
      (m : InboundMessage) (binding_id exchange_id : ℕ) (status : ExchangeStatus)
      (chat : Option Chat)
      → is_calm (on_result u format status chat m binding_id exchange_id) ≡ true
  unfolding on_result
  on_result-calm m binding_id exchange_id ExchangeStatus.processing chat = refl
  on_result-calm m binding_id exchange_id ExchangeStatus.failed chat = refl
  on_result-calm m binding_id exchange_id ExchangeStatus.abandoned chat = refl
  on_result-calm m binding_id exchange_id ExchangeStatus.completed none = refl
  on_result-calm m binding_id exchange_id ExchangeStatus.completed (some chat) =
      to_outbound-calm m binding_id exchange_id (format chat)

  pub after_respond-calm :
      (m : InboundMessage) (binding_id : ℕ) (request : ConversationRequest)
      (reply : Reply (ConversationResult Chat))
      → is_calm (after_respond u format m binding_id request reply) ≡ true
  unfolding after_respond
  after_respond-calm m binding_id request (err (conversation_error code)) =
      conversation_error-calm code
  after_respond-calm m binding_id request (err _) = refl
  after_respond-calm m binding_id request (ok r) =
      ground (arith, on_result-calm m binding_id r.exchange_id r.status r.chat)
