-- ===== src/Channels/Service/Activation.antt =====
-- A binding is used or failed: `_activate_binding` and the request after it, of channels/service.py.
use legal_chatbot_ueb_demo_s.Prelude.{
  ℕ, Text, codes, true, none, some, ok, err, ◌≡◌, refl, arith, ◌==◌, ◌&&◌, Option-cases, Bool-cases,
  inl, inr, ◌⊎◌,
}
use legal_chatbot_ueb_demo_s.Table.{same}
use legal_chatbot_ueb_demo_s.Unicode.{
  Unicode, normalize_safe_text, newline, normalized, contains_char, multiline_unsafe,
}
use legal_chatbot_ueb_demo_s.Conversation.Models.{ConversationRequest, conversation_request}
use legal_chatbot_ueb_demo_s.Channels.Models.{
  InboundMessage, BindingReservation, BindingReservationStatus, valid_binding_reservation,
}
use legal_chatbot_ueb_demo_s.Channels.Service.{
  other, Reply, Handler, failing, responding, returned, after_reserve_binding, after_activate,
  to_respond, on_binding, requested, is_active,
}

request_names :
    (u : Unicode) (conversation : ℕ) (delivery text : Text) (r : ConversationRequest)
    → conversation_request u conversation delivery text ≡ some r
    → r.conversation_id ≡ conversation
unfolding conversation_request
request_names u conversation delivery text r h =
    elim (Option-cases (normalize_safe_text u delivery)) [
      | inl bad ↦ absurd (ground (arith, bad))
      | inr (d, good) ↦ elim (Option-cases (normalize_safe_text u text)) [
        | inl bad ↦ absurd (ground (arith, bad, good))
        | inr (t, fine) ↦ ground (arith, good, fine)
      ]
    ]

module _ (u : Unicode) (m : InboundMessage) (b : BindingReservation) where
  -- The answer is that the binding is active, with the conversation that it was to be given.
  abbrev Agrees : ℕ → BindingReservation → Type 0
  Agrees conversation a =
      (valid_binding_reservation a ≡ true)
      × (a.binding_id ≡ b.binding_id)
      × (a.status ≡ BindingReservationStatus.active)
      × (a.conversation_id ≡ some conversation)

  -- The handler asks for an answer, with the request of this message for this conversation and this
  -- binding, or there is no such request.
  abbrev RespondsFor : ℕ → Handler → Type 0
  RespondsFor conversation (responding m' id request) =
      (m' ≡ m)
      × (id ≡ b.binding_id)
      × (request.conversation_id ≡ conversation)
      × (conversation_request u conversation (codes m.delivery_hmac) m.text ≡ some request)
  RespondsFor conversation (returned (err other)) =
      conversation_request u conversation (codes m.delivery_hmac) m.text ≡ none
  RespondsFor conversation _ = ⊥

  -- What becomes of the binding, by the answer to its activation.
  abbrev pub Concludes : ℕ → Reply BindingReservation → Handler → Type 0
  Concludes conversation (err e) h = h ≡ failing b
  Concludes conversation (ok a) h =
      (Agrees conversation a × RespondsFor conversation h)
      ⊎ ((Agrees conversation a → ⊥) × (h ≡ failing b))

  to_respond_lem :
      (a : BindingReservation) (conversation : ℕ)
      → a.binding_id ≡ b.binding_id
      → a.conversation_id ≡ some conversation
      → RespondsFor conversation (to_respond u m a)
  unfolding to_respond requested
  to_respond_lem a conversation named e =
      elim (Option-cases (conversation_request u conversation (codes m.delivery_hmac) m.text)) [
        | inl bad ↦ rw e (rw bad bad)
        | inr (r, good) ↦ rw e (
            rw good (
              refl,
              named,
              request_names u conversation (codes m.delivery_hmac) m.text r good,
              good,
            ))
      ]

  -- A handler that has asked to activate a binding with a new conversation fails that binding if the
  -- call raises or its answer is no valid one, or not that of this binding, active, with this
  -- conversation. Otherwise, and only then, it goes on, for the same binding row, with the request of
  -- its message to the new conversation; it raises only if the validators of a request refuse that.
  pub activation_settles :
      (conversation : ℕ) (reply : Reply BindingReservation)
      → Concludes conversation reply (after_activate u m b conversation reply)
  unfolding after_activate
  activation_settles conversation (err e) = refl
  activation_settles conversation (ok a) =
      elim (Bool-cases (
        valid_binding_reservation a
        && a.binding_id == b.binding_id
        && is_active u a.status
        && same a.conversation_id (some conversation))) [
          | inr refused ↦ rw refused (inr ((λ agreed. ground arith), refl))
          | inl agreed ↦
              let same_binding : a.binding_id ≡ b.binding_id = ground arith in
              let same_conversation : a.conversation_id ≡ some conversation = ground arith in
              rw agreed (
                inl (
                  (ground arith, same_binding, ground arith, same_conversation),
                  to_respond_lem a conversation same_binding same_conversation,
                ))
        ]

refused_request :
    (u : Unicode) (conversation : ℕ) (delivery text : Text)
    → normalize_safe_text u text ≡ none
    → conversation_request u conversation delivery text ≡ none
unfolding conversation_request
refused_request u conversation delivery text bad =
    elim (Option-cases (normalize_safe_text u delivery)) [
      | inl worse ↦ ground (arith, worse)
      | inr (d, good) ↦ ground (arith, good, bad)
    ]

-- For a text that is normalized and has a line break, where the line break is a control character, the
-- handler that is answered with an active binding of some conversation ends in an error that is no
-- channel error: the request to the conversation is not made.
pub multiline_raises :
    (u : Unicode) (m : InboundMessage) (b : BindingReservation) (conversation : ℕ)
    → u.is_control newline ≡ true
    → normalized u m.text ≡ m.text
    → contains_char newline m.text ≡ true
    → b.status ≡ BindingReservationStatus.active
    → b.conversation_id ≡ some conversation
    → b.lease_expires_at ≡ none
    → after_reserve_binding u m (ok b) ≡ returned (err other)
unfolding after_reserve_binding to_respond requested on_binding
multiline_raises u m b conversation k stable line active bound unleased =
    let refused =
      refused_request u conversation (codes m.delivery_hmac) m.text
        (multiline_unsafe u m.text k stable line) in
    ground (arith, active, bound, unleased, refused)
