-- ===== src/Channels/Models.antt =====
-- channels/models.py and channels/errors.py: the enumerations, the frozen contracts with their
-- validators, and the error codes. Identifiers (UUIDs) are numbers. A datetime is a number of
-- microseconds, with or without a time zone: an aware one is read as its instant in UTC.
use legal_chatbot_ueb_demo_s.Prelude.{
  ℕ, ◌*◌, String, Bool, true, false, not, ◌&&◌, ◌||◌, Option, none, some, [], ◌∷◌, leb, ◌==◌, Text,
  codes, all, length, if◌then◌else◌, is_hex, is_upper, is_code_char,
}
use legal_chatbot_ueb_demo_s.Table.{is_some}
use legal_chatbot_ueb_demo_s.Unicode.{Unicode, normalize_formatted_reply_text}

pub data ErrorCode : Type 0 where
  body_too_large auth_invalid auth_stale auth_malformed config_invalid binding_busy : ErrorCode
  binding_failed binding_activation_failed delivery_failed outbound_state_invalid : ErrorCode
  bridge_unavailable channel_malformed channel_unavailable channel_overflow : ErrorCode
  invalid_response persistence_failure : ErrorCode

pub data BindingStatus : Type 0 where
  binding active failed : BindingStatus

pub data OutboundStatus : Type 0 where
  pending sending sent failed unknown abandoned : OutboundStatus

pub data ReceiptStatus : Type 0 where
  sent rejected timeout unavailable invalid_response : ReceiptStatus

pub data IngressStatus : Type 0 where
  acknowledged processing terminal_no_retry : IngressStatus

pub data BindingReservationStatus : Type 0 where
  reserved active processing failed : BindingReservationStatus

pub data OutboundReservationStatus : Type 0 where
  reserved sending processing sent failed unknown abandoned : OutboundReservationStatus

pub data Datetime : Type 0 where
  naive : ℕ → Datetime
  aware : ℕ → Datetime

-- `timedelta(seconds=n)`
abbrev pub seconds : ℕ → ℕ
seconds n = n * 1_000_000

-- `[0-9a-f]{64}`
unfoldable pub valid_hmac : String → Bool
valid_hmac value = let text = codes value in length text == 64 && all is_hex text

-- `[A-Z][A-Z0-9_]{0,63}`
matches_code : Text → Bool
matches_code [] = false
matches_code (c ∷ rest) = is_upper c && leb (length rest) 63 && all is_code_char rest

unfoldable pub valid_safe_error_code : String → Bool
unfolding matches_code
valid_safe_error_code value = matches_code (codes value)

pub record DeliveryReceipt : Type 0 where
  pub status : ReceiptStatus
  pub safe_error_code : Option String
  pub duration_ms : ℕ

abbrev pub valid_optional_code : Option String → Bool
valid_optional_code none = true
valid_optional_code (some c) = valid_safe_error_code c

abbrev receipt_shape : ReceiptStatus → Option String → Bool
receipt_shape ReceiptStatus.sent code = not (is_some code)
receipt_shape _ code = is_some code

-- The validators of `ChannelDeliveryReceipt`.
abbrev pub valid_receipt : DeliveryReceipt → Bool
valid_receipt r = valid_optional_code r.safe_error_code && receipt_shape r.status r.safe_error_code

pub record BindingReservation : Type 0 where
  pub binding_id : ℕ
  pub status : BindingReservationStatus
  pub conversation_id : Option ℕ
  pub lease_expires_at : Option ℕ

abbrev binding_shape : BindingReservationStatus → Option ℕ → Option ℕ → Bool
binding_shape BindingReservationStatus.reserved conversation lease =
    is_some lease && not (is_some conversation)
binding_shape BindingReservationStatus.processing conversation lease = not (is_some conversation)
binding_shape BindingReservationStatus.active conversation lease =
    is_some conversation && not (is_some lease)
binding_shape BindingReservationStatus.failed conversation lease =
    not (is_some conversation || is_some lease)

-- `validate_binding_shape`, and `_validate_binding_reservation` of the service.
abbrev pub valid_binding_reservation : BindingReservation → Bool
valid_binding_reservation r = binding_shape r.status r.conversation_id r.lease_expires_at

abbrev pub outbound_max_attempts : ℕ
outbound_max_attempts = 1

pub record OutboundReservation : Type 0 where
  pub outbound_id : ℕ
  pub binding_id : ℕ
  pub exchange_id : ℕ
  pub status : OutboundReservationStatus
  pub attempt_count : ℕ
  pub safe_error_code : Option String

abbrev attempted : ℕ → Bool
attempted n = n == outbound_max_attempts

abbrev outbound_shape : OutboundReservationStatus → ℕ → Option String → Bool
outbound_shape OutboundReservationStatus.reserved attempts code =
    attempts == 0 && not (is_some code)
outbound_shape OutboundReservationStatus.sending attempts code =
    attempted attempts && not (is_some code)
outbound_shape OutboundReservationStatus.processing attempts code =
    attempted attempts && not (is_some code)
outbound_shape OutboundReservationStatus.sent attempts code =
    attempted attempts && not (is_some code)
outbound_shape _ attempts code = attempted attempts && is_some code

-- The field bounds and validators of `ChannelOutboundReservation`.
abbrev pub valid_outbound_reservation : OutboundReservation → Bool
valid_outbound_reservation r =
    leb r.attempt_count outbound_max_attempts
    && valid_optional_code r.safe_error_code
    && outbound_shape r.status r.attempt_count r.safe_error_code

pub record OutboundMessage : Type 0 where
  pub identity_hmac : String
  pub delivery_hmac : String
  pub exchange_id : ℕ
  pub text : Text
  pub citation_count : ℕ

pub record InboundMessage : Type 0 where
  pub identity_hmac : String
  pub delivery_hmac : String
  pub text : Text
  pub received_at : Datetime

pub record FormattedReply : Type 0 where
  pub text : Text
  pub citation_count : ℕ
  pub overflowed : Bool

abbrev pub inbound_text_max_chars : ℕ
inbound_text_max_chars = 4_000

abbrev pub outbound_text_max_chars : ℕ
outbound_text_max_chars = 1_994

-- The constructor of `ChannelFormattedReply` with its validators.
unfoldable pub formatted_reply : Unicode → Text → ℕ → Bool → Option FormattedReply
formatted_reply u text citation_count overflowed = elim (normalize_formatted_reply_text u text) [
  | none ↦ none
  | some t ↦
      if leb (length t) outbound_text_max_chars
        && leb citation_count 6
        && not (overflowed && not (citation_count == 0))
      then some (record { text = t; citation_count = citation_count; overflowed = overflowed })
      else none
]

-- The constructor of `ChannelOutboundMessage` with its validators.
unfoldable pub outbound_message : Unicode → String → String → ℕ → Text → ℕ → Option OutboundMessage
outbound_message u identity_hmac delivery_hmac exchange_id text citation_count =
    elim (normalize_formatted_reply_text u text) [
      | none ↦ none
      | some t ↦
          if valid_hmac identity_hmac
            && valid_hmac delivery_hmac
            && leb (length t) outbound_text_max_chars
            && leb citation_count 6
          then some (record {
            identity_hmac = identity_hmac;
            delivery_hmac = delivery_hmac;
            exchange_id = exchange_id;
            text = t;
            citation_count = citation_count;
          })
          else none
    ]

abbrev pub is_aware : Datetime → Bool
is_aware (aware t) = true
is_aware (naive t) = false

-- `ChannelInboundMessage.model_validate`
unfoldable pub inbound_message : Unicode → InboundMessage → Option InboundMessage
inbound_message u m = elim (normalize_formatted_reply_text u m.text) [
  | none ↦ none
  | some t ↦
      if valid_hmac m.identity_hmac
        && valid_hmac m.delivery_hmac
        && leb (length t) inbound_text_max_chars
        && is_aware m.received_at
      then some (record m { text = t })
      else none
]
