-- ===== src/Channels/Service.antt =====
-- `ChannelService` of channels/service.py. A handler is suspended at one of the calls that
-- `handle_inbound` awaits; the functions below run it from the answer of that call to the next
-- call. Logging is not modelled. `format` is `ChannelFormatter.format`.
pub mod Branches
pub mod Activation
use legal_chatbot_ueb_demo_s.Prelude.{
  ℕ, String, Bool, true, false, not, ◌&&◌, Option, none, some, ◌==◌, if◌then◌else◌, codes, Result,
  ok, err,
}
use legal_chatbot_ueb_demo_s.Table.{same}
use legal_chatbot_ueb_demo_s.Unicode.{Unicode}
use legal_chatbot_ueb_demo_s.Conversation.Models.{
  ConversationErrorCode, busy, in_progress, persistence_failure, ExchangeStatus,
  ConversationRequest, conversation_request, ConversationResult, valid_result,
}
use legal_chatbot_ueb_demo_s.Channels.Models.{
  ErrorCode, channel_malformed, channel_unavailable, IngressStatus, Datetime, is_aware,
  InboundMessage, inbound_message, OutboundMessage, outbound_message, FormattedReply,
  formatted_reply, BindingReservation, BindingReservationStatus, valid_binding_reservation,
  OutboundReservation, OutboundReservationStatus, valid_outbound_reservation, DeliveryReceipt,
  ReceiptStatus, valid_receipt,
}

-- What a call may raise.
pub data Raised : Type 0 where
  channel_error : ErrorCode → Raised
  conversation_error : ConversationErrorCode → Raised
  other : Raised

abbrev pub Reply : Type 0 → Type 0
Reply A = Result Raised A

-- The awaited calls, each with the local variables that are read after it.
pub data Handler : Type 0 where
  reserving_binding : InboundMessage → Handler
  creating_conversation : InboundMessage → BindingReservation → Handler
  activating : InboundMessage → BindingReservation → ℕ → Handler
  failing : BindingReservation → Handler
  responding : InboundMessage → ℕ → ConversationRequest → Handler
  reserving_outbound : ℕ → OutboundMessage → Handler
  marking : ℕ → OutboundMessage → OutboundReservation → Handler
  sending : ℕ → OutboundMessage → OutboundReservation → Handler
  completing : ℕ → OutboundMessage → OutboundReservation → DeliveryReceipt → Handler
  returned : Reply IngressStatus → Handler

abbrev pub receipt : IngressStatus → Handler
receipt status = returned (ok status)

-- `_raise_unavailable`
abbrev pub unavailable : Handler
unavailable = returned (err (channel_error channel_unavailable))

-- `_matches_outbound`
abbrev pub matches_outbound : OutboundReservation → ℕ → ℕ → Bool
matches_outbound r binding_id exchange_id =
    r.binding_id == binding_id && r.exchange_id == exchange_id

-- `_validated` on an outbound reservation, and `_matches_outbound`.
abbrev pub accepted : OutboundReservation → ℕ → OutboundMessage → Bool
accepted r binding_id message =
    valid_outbound_reservation r && matches_outbound r binding_id message.exchange_id

-- `_conversation_error_receipt`
unfoldable pub conversation_error_receipt : ConversationErrorCode → Handler
conversation_error_receipt ConversationErrorCode.busy = receipt IngressStatus.processing
conversation_error_receipt ConversationErrorCode.in_progress = receipt IngressStatus.processing
conversation_error_receipt ConversationErrorCode.persistence_failure = unavailable
conversation_error_receipt _ = receipt IngressStatus.terminal_no_retry

-- `_send_once`
unfoldable pub send_once : Reply DeliveryReceipt → DeliveryReceipt
send_once (err e) = record {
  status = ReceiptStatus.unavailable;
  safe_error_code = some "BRIDGE_UNAVAILABLE";
  duration_ms = 0;
}
send_once (ok r) = if valid_receipt r then r else record {
  status = ReceiptStatus.invalid_response;
  safe_error_code = some "INVALID_RESPONSE";
  duration_ms = 0;
}

on_outbound : OutboundReservationStatus → ℕ → OutboundMessage → OutboundReservation → Handler
on_outbound OutboundReservationStatus.sent binding_id message r = receipt IngressStatus.acknowledged
on_outbound OutboundReservationStatus.reserved binding_id message r = marking binding_id message r
on_outbound _ binding_id message r = receipt IngressStatus.terminal_no_retry

unfoldable pub after_reserve_outbound : ℕ → OutboundMessage → Reply OutboundReservation → Handler
unfolding on_outbound
after_reserve_outbound binding_id message (err e) = unavailable
after_reserve_outbound binding_id message (ok r) =
    if accepted r binding_id message then on_outbound r.status binding_id message r else unavailable

on_sending : OutboundReservationStatus → ℕ → OutboundMessage → OutboundReservation → Handler
on_sending OutboundReservationStatus.sending binding_id message r = sending binding_id message r
on_sending _ binding_id message r = receipt IngressStatus.terminal_no_retry

unfoldable pub after_mark_sending : ℕ → OutboundMessage → Reply OutboundReservation → Handler
unfolding on_sending
after_mark_sending binding_id message (err e) = unavailable
after_mark_sending binding_id message (ok r) =
    if accepted r binding_id message then on_sending r.status binding_id message r else unavailable

unfoldable pub after_send :
    ℕ → OutboundMessage → OutboundReservation → Reply DeliveryReceipt → Handler
unfolding send_once
after_send binding_id message r reply = completing binding_id message r (send_once reply)

on_completed : OutboundReservationStatus → Handler
on_completed OutboundReservationStatus.sent = receipt IngressStatus.acknowledged
on_completed _ = receipt IngressStatus.terminal_no_retry

unfoldable pub after_complete : ℕ → OutboundMessage → Reply OutboundReservation → Handler
unfolding on_completed
after_complete binding_id message (err e) = unavailable
after_complete binding_id message (ok r) =
    if accepted r binding_id message then on_completed r.status else unavailable

module _ (u : Unicode) where
  -- The request is built outside the `try`, so an error of its validators is raised as it is.
  requested : InboundMessage → ℕ → Option ConversationRequest → Handler
  requested m binding_id none = returned (err other)
  requested m binding_id (some request) = responding m binding_id request

  unfoldable pub to_respond : InboundMessage → BindingReservation → Handler
  unfolding requested conversation_request
  to_respond m b = elim b.conversation_id [
    | none ↦ unavailable
    | some c ↦ requested m b.binding_id (conversation_request u c (codes m.delivery_hmac) m.text)
  ]

  on_binding : BindingReservationStatus → InboundMessage → BindingReservation → Handler
  unfolding to_respond
  on_binding BindingReservationStatus.processing m b = receipt IngressStatus.processing
  on_binding BindingReservationStatus.failed m b = receipt IngressStatus.terminal_no_retry
  on_binding BindingReservationStatus.reserved m b = creating_conversation m b
  on_binding BindingReservationStatus.active m b = to_respond m b

  unfoldable pub after_reserve_binding : InboundMessage → Reply BindingReservation → Handler
  unfolding on_binding
  after_reserve_binding m (err e) = unavailable
  after_reserve_binding m (ok b) =
      if valid_binding_reservation b then on_binding b.status m b else unavailable

  unfoldable pub after_create_conversation : InboundMessage → BindingReservation → Reply ℕ → Handler
  after_create_conversation m b (err e) = failing b
  after_create_conversation m b (ok conversation) = activating m b conversation

  abbrev is_active : BindingReservationStatus → Bool
  is_active BindingReservationStatus.active = true
  is_active _ = false

  unfoldable pub after_activate :
      InboundMessage → BindingReservation → ℕ → Reply BindingReservation → Handler
  unfolding to_respond
  after_activate m b conversation (err e) = failing b
  after_activate m b conversation (ok a) =
      if valid_binding_reservation a
        && a.binding_id == b.binding_id
        && is_active a.status
        && same a.conversation_id (some conversation)
      then to_respond m a
      else failing b

  -- `_validate_inbound`, and the first call.
  unfoldable pub handle_inbound : InboundMessage → Datetime → Handler
  unfolding inbound_message
  handle_inbound m now = elim (inbound_message u m) [
    | none ↦ returned (err (channel_error channel_malformed))
    | some message ↦
        if is_aware now
        then reserving_binding message
        else returned (err (channel_error channel_malformed))
  ]

  module _ {Chat : Type 0} (format : Chat → Reply FormattedReply) where
    sendable : ℕ → Option OutboundMessage → Handler
    sendable binding_id none = unavailable
    sendable binding_id (some message) = reserving_outbound binding_id message

    -- The formatted reply is validated again before the message is made of it.
    message_of : InboundMessage → ℕ → Option FormattedReply → Option OutboundMessage
    unfolding outbound_message
    message_of m exchange_id none = none
    message_of m exchange_id (some reply) =
        outbound_message u m.identity_hmac m.delivery_hmac exchange_id reply.text
          reply.citation_count

    to_outbound : InboundMessage → ℕ → ℕ → Reply FormattedReply → Handler
    unfolding sendable message_of formatted_reply
    to_outbound m binding_id exchange_id (err e) = unavailable
    to_outbound m binding_id exchange_id (ok reply) = sendable binding_id (
        message_of m exchange_id
          (formatted_reply u reply.text reply.citation_count reply.overflowed))

    on_result : ExchangeStatus → Option Chat → InboundMessage → ℕ → ℕ → Handler
    unfolding to_outbound
    on_result ExchangeStatus.processing chat m binding_id exchange_id =
        receipt IngressStatus.processing
    on_result ExchangeStatus.completed (some chat) m binding_id exchange_id =
        to_outbound m binding_id exchange_id (format chat)
    on_result _ chat m binding_id exchange_id = receipt IngressStatus.terminal_no_retry

    unfoldable pub after_respond :
        InboundMessage → ℕ → ConversationRequest → Reply (ConversationResult Chat) → Handler
    unfolding conversation_error_receipt on_result
    after_respond m binding_id request (err (conversation_error code)) =
        conversation_error_receipt code
    after_respond m binding_id request (err _) = unavailable
    after_respond m binding_id request (ok r) =
        if valid_result r && r.conversation_id == request.conversation_id
        then on_result r.status r.chat m binding_id r.exchange_id
        else unavailable
