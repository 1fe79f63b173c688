-- ===== src/Channels/System/Sends.antt =====
-- How often one inbound delivery is handed to the channel by the handlers of channels/service.py, however
-- they are interleaved, lose answers or crash.
use legal_chatbot_ueb_demo_s.Prelude.{
  ℕ, ◌+◌, ◌≤◌, zero, suc, String, List, [], ◌∷◌, ◌++◌, ◌≡◌, refl, arith, Option-cases, inl, inr,
}
use legal_chatbot_ueb_demo_s.Unicode.{Unicode}
use legal_chatbot_ueb_demo_s.Channels.Models.{OutboundMessage, FormattedReply}
use legal_chatbot_ueb_demo_s.Channels.Store.{Database}
use legal_chatbot_ueb_demo_s.Table.{first}
use legal_chatbot_ueb_demo_s.Channels.Outbound.{by_delivery}
use legal_chatbot_ueb_demo_s.Channels.Outbound.Effects.{row}
use legal_chatbot_ueb_demo_s.Channels.Outbound.Validity.{IsValid}
use legal_chatbot_ueb_demo_s.Channels.Outbound.AtMostOnce.{used, used-le-one}
use legal_chatbot_ueb_demo_s.Channels.Service.{Reply, Handler, marking, handle_inbound}
use legal_chatbot_ueb_demo_s.Channels.Service.Branches.{handle_inbound-calm}
use legal_chatbot_ueb_demo_s.Channels.System.{
  Running, Answer, Event, arrives, resumes, conversations_change, crashes, World, advance, resume,
  changed, dropped, step, run, starting,
}
use legal_chatbot_ueb_demo_s.Channels.System.Steps.{
  ready, Tied, handed_for, RowsAdvance, kept-RowsAdvance, calm-Tied, calm-ready,
}
use legal_chatbot_ueb_demo_s.Channels.System.Deletion.{changed-IsValid, changed-Tied}
use legal_chatbot_ueb_demo_s.Channels.System.Advance.{advance-Fine}

abbrev readies : String → List Running → ℕ
readies hmac [] = 0
readies hmac (h ∷ hs) = ready hmac h.at + readies hmac hs

abbrev TiedAll : String → Database → List Running → Type 0
TiedAll hmac db [] = Unit
TiedAll hmac db (h ∷ hs) = Tied hmac db h.at × TiedAll hmac db hs

Tied-advance :
    (hmac : String) (db db' : Database) (h : Handler)
    → RowsAdvance db db'
    → Tied hmac db h
    → Tied hmac db' h
Tied-advance hmac db db' (marking binding_id message r) rows tied = λ mine.
    elim (Option-cases (row db r.outbound_id)) [
      | inl gone ↦ absurd (rw gone at (tied mine))
      | inr (d, here) ↦ elim (Option-cases (row db' r.outbound_id)) [
        | inl gone ↦ absurd (rw gone at (rows r.outbound_id d here))
        | inr (d', there) ↦
            let advanced = rw there at (rows r.outbound_id d here) in
            let named : d.delivery_hmac ≡ message.delivery_hmac = rw here at (tied mine) in
            ground (arith, advanced, named, there)
      ]
    ]
Tied-advance hmac db db' _ rows tied = tt

TiedAll-advance :
    (hmac : String) (db db' : Database) (hs : List Running)
    → RowsAdvance db db'
    → TiedAll hmac db hs
    → TiedAll hmac db' hs
TiedAll-advance hmac db db' [] rows t = tt
TiedAll-advance hmac db db' (h ∷ hs) rows (t, ts) =
    (Tied-advance hmac db db' h.at rows t, TiedAll-advance hmac db db' hs rows ts)

handed-append :
    (hmac : String) (ms ns : List OutboundMessage)
    → handed_for hmac (ms ++ ns) ≡ handed_for hmac ms + handed_for hmac ns
handed-append hmac [] ns = omega arith
handed-append hmac (m ∷ ms) ns = omega (arith, handed-append hmac ms ns)

-- What the resumption of one of the handlers of `w`, all of them `hs`, leads to.
record Resumed (hmac : String) (w : World) (hs : List Running) (w' : World) : Type 0 where
  valid : IsValid w'.db
  tied : TiedAll hmac w'.db w'.handlers
  budget :
      handed_for hmac w'.sent + readies hmac w'.handlers + used hmac w.db
      ≤ handed_for hmac w.sent + readies hmac hs + used hmac w'.db
  rows : RowsAdvance w.db w'.db

module _ (u : Unicode) {Chat : Type 0} (format : Chat → Reply FormattedReply) (lease_seconds : ℕ)
    (hmac : String) where
  resume-Resumed :
      (a : Answer Chat) (i : ℕ) (hs : List Running) (w : World)
      → IsValid w.db
      → TiedAll hmac w.db hs
      → Resumed hmac w hs (resume u format lease_seconds a i hs w)
  unfolding resume
  resume-Resumed a i [] w v t = record {
    valid = v;
    tied = tt;
    budget = omega arith;
    rows = kept-RowsAdvance w.db w.db refl;
  }
  resume-Resumed a zero (h ∷ hs) w v (t, ts) =
      let p = advance u format lease_seconds a h.now h.at w.db in
      let fine = advance-Fine u format lease_seconds hmac a h.now h.at w.db v t in
      record {
        valid = fine.valid;
        tied = (fine.tied, TiedAll-advance hmac w.db p.db hs fine.rows ts);
        budget = omega (arith, fine.budget, handed-append hmac p.handed w.sent);
        rows = fine.rows;
      }
  resume-Resumed a (suc i) (h ∷ hs) w v (t, ts) =
      let w' = resume u format lease_seconds a i hs w in
      let rest = resume-Resumed a i hs w v ts in
      record {
        valid = rest.valid;
        tied = (Tied-advance hmac w.db w'.db h.at rest.rows t, rest.tied);
        budget = omega (arith, rest.budget);
        rows = rest.rows;
      }

TiedAll-changed :
    (hmac : String) (conversations exchanges : List ℕ) (db : Database)
    → IsValid db
    → first (by_delivery hmac) (changed conversations exchanges db).deliveries
      ≡ first (by_delivery hmac) db.deliveries
    → (hs : List Running) → TiedAll hmac db hs
    → TiedAll hmac (changed conversations exchanges db) hs
TiedAll-changed hmac conversations exchanges db v stays [] t = tt
TiedAll-changed hmac conversations exchanges db v stays (h ∷ hs) (t, ts) = (
  changed-Tied conversations exchanges db v hmac h.at stays t,
  TiedAll-changed hmac conversations exchanges db v stays hs ts,
)

dropped-Tied :
    (hmac : String) (db : Database) (i : ℕ) (hs : List Running)
    → TiedAll hmac db hs
    → TiedAll hmac db (dropped i hs)
dropped-Tied hmac db i [] t = tt
dropped-Tied hmac db zero (h ∷ hs) (t, ts) = ts
dropped-Tied hmac db (suc i) (h ∷ hs) (t, ts) = (t, dropped-Tied hmac db i hs ts)

dropped-readies :
    (hmac : String) (i : ℕ) (hs : List Running) → readies hmac (dropped i hs) ≤ readies hmac hs
dropped-readies hmac i [] = omega arith
dropped-readies hmac zero (h ∷ hs) = omega arith
dropped-readies hmac (suc i) (h ∷ hs) = omega (arith, dropped-readies hmac i hs)

-- The sends that were made and those that a handler is granted do not exceed the one of the row.
record Sound (hmac : String) (w : World) : Type 0 where
  valid : IsValid w.db
  tied : TiedAll hmac w.db w.handlers
  budget : handed_for hmac w.sent + readies hmac w.handlers ≤ used hmac w.db

module _ (u : Unicode) {Chat : Type 0} (format : Chat → Reply FormattedReply) (lease_seconds : ℕ)
    (hmac : String) where
  -- The select by the HMAC finds after the event what it has found before, if the event is a change of
  -- the conversation tables.
  abbrev Stays : Event Chat → World → Type 0
  Stays (conversations_change conversations exchanges) w =
      first (by_delivery hmac) (changed conversations exchanges w.db).deliveries
      ≡ first (by_delivery hmac) w.db.deliveries
  Stays _ w = Unit

  -- No change of the conversation tables among the events deletes the row with the HMAC, by cascade.
  abbrev pub Remains : List (Event Chat) → World → Type 0
  Remains [] w = Unit
  Remains (e ∷ es) w = Stays e w × Remains es (step u format lease_seconds e w)

  step-Sound :
      (e : Event Chat) (w : World)
      → Stays e w
      → Sound hmac w
      → Sound hmac (step u format lease_seconds e w)
  unfolding step
  step-Sound (arrives m now) w _ s =
      let calm = handle_inbound-calm u m now in
      let h = handle_inbound u m now in
      record {
        valid = s.valid;
        tied = (calm-Tied hmac w.db h calm, s.tied);
        budget = omega (arith, s.budget, calm-ready hmac h calm);
      }
  step-Sound (resumes i a) w _ s =
      let r = resume-Resumed u format lease_seconds hmac a i w.handlers w s.valid s.tied in
      record { valid = r.valid; tied = r.tied; budget = omega (arith, s.budget, r.budget) }
  step-Sound (conversations_change conversations exchanges) w stays s = record {
    valid = changed-IsValid conversations exchanges w.db s.valid;
    tied = TiedAll-changed hmac conversations exchanges w.db s.valid stays w.handlers s.tied;
    budget = rw stays s.budget;
  }
  step-Sound (crashes i) w _ s = record {
    valid = s.valid;
    tied = dropped-Tied hmac w.db i w.handlers s.tied;
    budget = omega (arith, s.budget, dropped-readies hmac i w.handlers);
  }

  run-Sound :
      (es : List (Event Chat)) (w : World)
      → Remains es w
      → Sound hmac w
      → Sound hmac (run u format lease_seconds es w)
  unfolding run
  run-Sound [] w _ s = s
  run-Sound (e ∷ es) w (stays, remains) s =
      run-Sound es (step u format lease_seconds e w) remains (step-Sound e w stays s)

  -- Start with any database that keeps its constraints, and let webhook requests arrive, handlers go
  -- on, lose the answers of their transactions or crash, and the conversation tables change, in any
  -- order. As long as no such change deletes, by cascade, the row of a delivery HMAC, the channel is
  -- handed at most one message for this HMAC; the rows of other deliveries may be deleted meanwhile.
  pub channel_sends_once :
      (events : List (Event Chat)) (db : Database)
      → IsValid db
      → Remains events (starting db)
      → handed_for hmac (run u format lease_seconds events (starting db)).sent ≤ 1
  unfolding starting
  channel_sends_once events db v remains =
      let w = run u format lease_seconds events (starting db) in
      let s =
        run-Sound events (starting db) remains
          record { valid = v; tied = tt; budget = omega arith } in
      omega (arith, s.budget, used-le-one hmac w.db)
