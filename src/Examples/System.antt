-- ===== src/Examples/System.antt =====
-- The theorems on the handlers of channels/service.py, with the characters of ASCII and a chat that is
-- its text.
use legal_chatbot_ueb_demo_s.Prelude.{
  ◌≤◌, ◌≡◌, refl, false, none, some, List, [], ◌∷◌, leb, ltb, Text, ok, err,
}
use legal_chatbot_ueb_demo_s.Table.{first, find}
use legal_chatbot_ueb_demo_s.Unicode.{Unicode, strip_start, strip_end}
use legal_chatbot_ueb_demo_s.Conversation.Models.{ExchangeStatus}
use legal_chatbot_ueb_demo_s.Channels.Models.{
  aware, InboundMessage, FormattedReply, BindingReservation, BindingReservationStatus,
  ReceiptStatus,
}
use legal_chatbot_ueb_demo_s.Channels.Service.{
  Reply, other, returned, after_reserve_binding, after_activate,
}
use legal_chatbot_ueb_demo_s.Channels.Service.Activation.{
  Concludes, activation_settles, multiline_raises,
}
use legal_chatbot_ueb_demo_s.Channels.System.{
  Answer, Fate, Event, arrives, resumes, conversations_change, changed, starting, run,
}
use legal_chatbot_ueb_demo_s.Channels.System.Steps.{handed_for}
use legal_chatbot_ueb_demo_s.Channels.System.Sends.{Remains, channel_sends_once}
use legal_chatbot_ueb_demo_s.Examples.{second_identity, first_delivery, some_database}
use legal_chatbot_ueb_demo_s.Examples.Outbound.{some_deliveries-IsValid}

abbrev pub ascii : Unicode
ascii = record { nfc = λ t. t; is_space = λ c. leb c 32; is_control = λ c. ltb c 32 }

abbrev plain : Text → Reply FormattedReply
plain text = ok (record { text = text; citation_count = 0; overflowed = false })

abbrev question : InboundMessage
question = record {
  identity_hmac = second_identity;
  delivery_hmac = first_delivery;
  text = b'h' ∷ b'i' ∷ [];
  received_at = aware 0;
}

-- What each await of a delivery is answered, where all goes well.
abbrev good_answer : Answer Text
good_answer = record {
  fate = Fate.answered;
  raced = false;
  fresh = 5;
  created = ok 8;
  responded = ok (record {
    conversation_id = 7;
    exchange_id = 9;
    status = ExchangeStatus.completed;
    duplicate = false;
    chat = some (b'o' ∷ b'k' ∷ []);
  });
  delivered = ok (record { status = ReceiptStatus.sent; safe_error_code = none; duration_ms = 3 });
}

-- Another exchange is there, and the same message arrives twice; the handlers take turns, and one of
-- them loses an answer.
abbrev some_events : List (Event Text)
some_events =
    conversations_change (7 ∷ 8 ∷ []) (9 ∷ 12 ∷ [])
    ∷ arrives question (aware 6_000_000)
    ∷ arrives question (aware 6_000_001)
    ∷ resumes 0 good_answer
    ∷ resumes 1 good_answer
    ∷ resumes 0 good_answer
    ∷ resumes 1 good_answer
    ∷ resumes 0 good_answer
    ∷ resumes 1 good_answer
    ∷ resumes 0 good_answer
    ∷ resumes 1 good_answer
    ∷ resumes 0 good_answer
    ∷ resumes 1 good_answer
    ∷ resumes 0 (record good_answer { fate = Fate.lost })
    ∷ []

delivery-Remains : Remains ascii plain 120 first_delivery some_events (starting some_database)
unfolding changed first find starting
delivery-Remains =
    (refl, (tt, (tt, (tt, (tt, (tt, (tt, (tt, (tt, (tt, (tt, (tt, (tt, (tt, tt))))))))))))))

channel_sends_once_example :
    handed_for first_delivery (run ascii plain 120 some_events (starting some_database)).sent ≤ 1
channel_sends_once_example =
    channel_sends_once ascii plain 120 first_delivery some_events some_database
      some_deliveries-IsValid delivery-Remains

abbrev lease : BindingReservation
lease = record {
  binding_id = 1;
  status = BindingReservationStatus.reserved;
  conversation_id = none;
  lease_expires_at = some 5_000_000;
}

abbrev active : BindingReservation
active = record {
  binding_id = 1;
  status = BindingReservationStatus.active;
  conversation_id = some 8;
  lease_expires_at = none;
}

activation_settles_example :
    Concludes ascii question lease 8 (ok active) (after_activate ascii question lease 8 (ok active))
activation_settles_example = activation_settles ascii question lease 8 (ok active)

abbrev two_lines : InboundMessage
two_lines = record question { text = b'h' ∷ b'i' ∷ 10 ∷ b'y' ∷ [] }

multiline_raises_example : after_reserve_binding ascii two_lines (ok active) ≡ returned (err other)
unfolding strip_start strip_end
multiline_raises_example = multiline_raises ascii two_lines active 8 refl refl refl refl refl refl
