-- ===== src/Channels/System/Advance.antt =====
-- One step of a handler of channels/service.py, by the call that it awaits.
use legal_chatbot_ueb_demo_s.Prelude.{
  ℕ, String, true, Option, none, Result, ◌≡◌, refl, arith, Bool-cases, inl, inr,
}
use legal_chatbot_ueb_demo_s.Unicode.{Unicode}
use legal_chatbot_ueb_demo_s.Channels.Models.{
  Datetime, OutboundMessage, FormattedReply, OutboundReservation, ErrorCode, BindingReservation,
}
use legal_chatbot_ueb_demo_s.Channels.Store.{Database}
use legal_chatbot_ueb_demo_s.Channels.Bindings
use legal_chatbot_ueb_demo_s.Channels.Bindings.Frame.{
  Kept, kept_all, reserve-Kept, reserve_raced-Kept, activate-Kept, fail-Kept,
}
use legal_chatbot_ueb_demo_s.Channels.Outbound
use legal_chatbot_ueb_demo_s.Channels.Outbound.Effects.{
  grant, Effect, nothing, EffectOf, reserve-Effect, reserve_raced-Effect, mark_sending-Effect,
  complete-Effect,
}
use legal_chatbot_ueb_demo_s.Channels.Outbound.Validity.{IsValid}
use legal_chatbot_ueb_demo_s.Channels.Outbound.Names.{
  reserve-Names, reserve_raced-Names, mark_sending-SameRow,
}
use legal_chatbot_ueb_demo_s.Channels.Service.{
  Reply, Handler, reserving_binding, creating_conversation, activating, failing, responding,
  reserving_outbound, marking, sending, completing, returned, unavailable, after_reserve_binding,
  after_activate, after_send, after_complete,
}
use legal_chatbot_ueb_demo_s.Channels.Service.Branches.{
  is_calm, after_reserve_binding-calm, after_create-calm, after_activate-calm, after_respond-calm,
  after_complete-calm,
}
use legal_chatbot_ueb_demo_s.Channels.System.{Fate, Answer, heard, goes, advance}
use legal_chatbot_ueb_demo_s.Channels.System.Steps.{
  ready, Tied, Fine, heard_rule, calm-Fine, reserved-Fine, marked-Fine, moved-Fine,
  kept-RowsAdvance, calm-Tied, calm-ready,
}

-- A call of the binding repository and a calm handler after it.
binding_call-Fine :
    (hmac : String) (db : Database) (fate : Fate) (continue : Reply BindingReservation → Handler)
    (out : Result ErrorCode BindingReservation × Database)
    → IsValid db
    → Kept db out.1
    → ((reply : Reply BindingReservation) → is_calm (continue reply) ≡ true)
    → Fine hmac db 0 (goes continue (heard fate db out))
binding_call-Fine hmac db fate continue out v kept calm =
    calm-Fine hmac db (heard fate db out).1 (continue (heard fate db out).0) v
      (heard_rule (Kept db) fate db out (kept_all db) kept) (calm (heard fate db out).0)

completed-Fine :
    (hmac : String) (db : Database) (fate : Fate) (binding_id : ℕ) (message : OutboundMessage)
    (out : Result ErrorCode OutboundReservation × Database)
    → IsValid db
    → EffectOf db out
    → Fine hmac db 0 (goes (after_complete binding_id message) (heard fate db out))
completed-Fine hmac db fate binding_id message out v effect = go fate out effect
  where
    moved :
        (db' : Database) (g : Option ℕ) (reply : Reply OutboundReservation)
        → Effect db g db'
        → Fine hmac db 0 (goes (after_complete binding_id message) (reply, db'))
    moved db' g reply e =
        let calm = after_complete-calm binding_id message reply in
        let next = after_complete binding_id message reply in
        moved-Fine hmac db db' next g v e (calm-Tied hmac db' next calm)
          (omega (arith, calm-ready hmac next calm))

    go :
        (fate : Fate) (out : Result ErrorCode OutboundReservation × Database)
        → EffectOf db out
        → Fine hmac db 0 (goes (after_complete binding_id message) (heard fate db out))
    go Fate.answered (r, db') e = moved db' (grant r) _ e
    go Fate.lost (r, db') e = moved db' (grant r) _ e
    go Fate.unreachable (r, db') e = moved db none _ (nothing refl refl)

module _ (u : Unicode) {Chat : Type 0} (format : Chat → Reply FormattedReply) (lease_seconds : ℕ)
    (hmac : String) where
  pub advance-Fine :
      (a : Answer Chat) (now : Datetime) (h : Handler) (db : Database)
      → IsValid db
      → Tied hmac db h
      → Fine hmac db (ready hmac h) (advance u format lease_seconds a now h db)
  unfolding advance after_send
  advance-Fine a now (reserving_binding m) db v tied = elim (Bool-cases a.raced) [
    | inl late ↦ rw late (
        binding_call-Fine hmac db a.fate (after_reserve_binding u m)
          (Bindings.reserve_raced a.fresh lease_seconds m.identity_hmac now db) v
          (reserve_raced-Kept db a.fresh lease_seconds m.identity_hmac now)
          (after_reserve_binding-calm u m))
    | inr alone ↦ rw alone (
        binding_call-Fine hmac db a.fate (after_reserve_binding u m)
          (Bindings.reserve (λ d. d) a.fresh lease_seconds m.identity_hmac now db) v
          (reserve-Kept db a.fresh lease_seconds m.identity_hmac now)
          (after_reserve_binding-calm u m))
  ]
  advance-Fine a now (creating_conversation m b) db v tied =
      calm-Fine hmac db db _ v (kept_all db) (after_create-calm u m b a.created)
  advance-Fine a now (activating m b c) db v tied =
      binding_call-Fine hmac db a.fate (after_activate u m b c) (Bindings.activate b c now db) v
        (activate-Kept db b c now) (after_activate-calm u m b c)
  advance-Fine a now (failing b) db v tied =
      binding_call-Fine hmac db a.fate (λ _. unavailable)
        (Bindings.fail b "BINDING_ACTIVATION_FAILED" now db) v
        (fail-Kept db b "BINDING_ACTIVATION_FAILED" now) (λ _. refl)
  advance-Fine a now (responding m binding_id request) db v tied =
      calm-Fine hmac db db _ v (kept_all db)
        (after_respond-calm u format m binding_id request a.responded)
  advance-Fine a now (reserving_outbound binding_id message) db v tied = elim (Bool-cases a.raced) [
    | inl late ↦ rw late (
        reserved-Fine hmac db a.fate binding_id message
          (Outbound.reserve_raced a.fresh binding_id message now db) v
          (reserve_raced-Effect a.fresh binding_id message now db)
          (reserve_raced-Names a.fresh binding_id message db v now))
    | inr alone ↦ rw alone (
        reserved-Fine hmac db a.fate binding_id message
          (Outbound.reserve (λ d. d) a.fresh binding_id message now db) v
          (reserve-Effect a.fresh binding_id message now db)
          (reserve-Names a.fresh binding_id message db v now))
  ]
  advance-Fine a now (marking binding_id message r) db v tied =
      marked-Fine hmac db a.fate binding_id message r (Outbound.mark_sending r now db) v
        (mark_sending-Effect r now db) tied (mark_sending-SameRow r now db)
  advance-Fine a now (sending binding_id message r) db v tied = record {
    valid = v;
    tied = tt;
    budget = omega arith;
    rows = kept-RowsAdvance db db refl;
  }
  advance-Fine a now (completing binding_id message r receipt) db v tied =
      completed-Fine hmac db a.fate binding_id message (Outbound.complete r receipt now db) v
        (complete-Effect r receipt now db)
  advance-Fine a now (returned outcome) db v tied = calm-Fine hmac db db _ v (kept_all db) refl
