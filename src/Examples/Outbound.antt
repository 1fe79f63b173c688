-- ===== src/Examples/Outbound.antt =====
-- The theorems on the outbound repository of channels/repository.py, at one pending delivery.
use legal_chatbot_ueb_demo_s.Prelude.{◌≤◌, ◌≡◌, refl, true, none, some, List, [], ◌∷◌, arith}
use legal_chatbot_ueb_demo_s.Table.{find}
use legal_chatbot_ueb_demo_s.Channels.Models.{
  aware, valid_hmac, OutboundReservation, OutboundReservationStatus, DeliveryReceipt, ReceiptStatus,
}
use legal_chatbot_ueb_demo_s.Channels.Store.{Delivery}
use legal_chatbot_ueb_demo_s.Channels.Outbound.{reservation_for}
use legal_chatbot_ueb_demo_s.Channels.Outbound.Effects.{row}
use legal_chatbot_ueb_demo_s.Channels.Outbound.Validity.{IsValid}
use legal_chatbot_ueb_demo_s.Channels.Outbound.AtMostOnce.{
  Call, reserving, racing, marking, completing, perform_all, sends, Advances, at_most_one_send,
  rows_advance, perform_all-IsValid,
}
use legal_chatbot_ueb_demo_s.Examples.{
  first_delivery, pending_delivery, some_database, some_message,
}

delivery_fits : valid_hmac first_delivery ≡ true
unfolding valid_hmac
delivery_fits = refl

pub some_deliveries-IsValid : IsValid some_database
unfolding find
some_deliveries-IsValid = record {
  ids = (refl, tt);
  shaped = λ k d h. ground arith;
  checked = λ k d h. ground (arith, delivery_fits);
  deliveries = λ i j d e p q same. ground arith;
  exchanges = λ i j d e p q same_binding same_exchange. ground arith;
  senders = λ i j d e p q sd se same_binding. ground arith;
}

abbrev asked : OutboundReservation
asked = reservation_for pending_delivery

abbrev granted : OutboundReservation
granted = record asked { status = OutboundReservationStatus.sending; attempt_count = 1 }

abbrev sent_receipt : DeliveryReceipt
sent_receipt = record { status = ReceiptStatus.sent; safe_error_code = none; duration_ms = 3 }

-- Two handlers reserve the same delivery, one of them after a lost race, both ask for the send, and
-- the first of them completes it.
abbrev some_calls : List Call
some_calls =
    reserving 5 2 some_message (aware 6_000_000)
    ∷ racing 6 2 some_message (aware 6_000_000)
    ∷ marking asked (aware 6_000_000)
    ∷ marking asked (aware 6_000_001)
    ∷ completing granted sent_receipt (aware 7_000_000)
    ∷ []

at_most_one_send_example : sends first_delivery some_calls some_database ≤ 1
at_most_one_send_example =
    at_most_one_send first_delivery some_calls some_database some_deliveries-IsValid

rows_advance_example :
    (d : Delivery) × (row (perform_all some_calls some_database) 1 ≡ some d)
    × Advances pending_delivery d
unfolding find
rows_advance_example = rows_advance some_calls some_database 1 pending_delivery refl

perform_all-IsValid_example : IsValid (perform_all some_calls some_database)
perform_all-IsValid_example = perform_all-IsValid some_calls some_database some_deliveries-IsValid
