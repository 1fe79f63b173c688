-- ===== src/Channels/System/Deletion.antt =====
-- The conversation tables change under the handlers of channels/service.py: what the cascade of the
-- foreign keys of channels/orm.py leaves.
use legal_chatbot_ueb_demo_s.Prelude.{
  ℕ, String, true, some, List, ◌≡◌, ◌∙◌, arith, eq_iff, Option-cases, inl, inr,
}
use legal_chatbot_ueb_demo_s.Table.{
  first, filter-Unique, find-filter, find-first, first_sound, first-none,
}
use legal_chatbot_ueb_demo_s.Channels.Outbound.{by_delivery, linked}
use legal_chatbot_ueb_demo_s.Channels.Outbound.Effects.{row}
use legal_chatbot_ueb_demo_s.Channels.Outbound.Validity.{IsValid}
use legal_chatbot_ueb_demo_s.Channels.Service.{Handler, marking}
use legal_chatbot_ueb_demo_s.Channels.Store.{Delivery, delivery_key, Database}
use legal_chatbot_ueb_demo_s.Channels.System.{cascade, changed}
use legal_chatbot_ueb_demo_s.Channels.System.Steps.{Tied}

module _ (conversations exchanges : List ℕ) (db : Database) (v : IsValid db) where
  row_left :
      (k : ℕ) (d : Delivery)
      → row (changed conversations exchanges db) k ≡ some d
      → (row db k ≡ some d) × (linked d (changed conversations exchanges db) ≡ true)
  unfolding changed cascade
  row_left k d h = find-filter delivery_key _ db.deliveries k d v.ids h

  -- The tables meet the constraints on deliveries after the cascade.
  pub changed-IsValid : IsValid (changed conversations exchanges db)
  changed-IsValid = record {
    ids = unfold changed cascade in filter-Unique delivery_key _ db.deliveries v.ids;
    shaped = λ k d h. v.shaped k d (row_left k d h).0;
    checked = λ k d h. ground (arith, row_left k d h, v.checked k d (row_left k d h).0);
    deliveries = λ i j d e p q. v.deliveries i j d e (row_left i d p).0 (row_left j e q).0;
    exchanges = λ i j d e p q. v.exchanges i j d e (row_left i d p).0 (row_left j e q).0;
    senders = λ i j d e p q. v.senders i j d e (row_left i d p).0 (row_left j e q).0;
  }

  -- The row of a delivery whose select by HMAC finds what it found before.
  row_stays :
      (hmac : String) (k : ℕ) (d : Delivery)
      → first (by_delivery hmac) (changed conversations exchanges db).deliveries
        ≡ first (by_delivery hmac) db.deliveries
      → row db k ≡ some d
      → d.delivery_hmac ≡ hmac
      → row (changed conversations exchanges db) k ≡ some d
  row_stays hmac k d stays here named =
      elim (Option-cases (first (by_delivery hmac) db.deliveries)) [
        | inl gone ↦ ground (
          arith,
          first-none delivery_key (by_delivery hmac) db.deliveries k d gone here,
          eq_iff d.delivery_hmac hmac,
        )
        | inr (x, there) ↦
            let same_row : row db x.id ≡ some x =
              find-first delivery_key (by_delivery hmac) db.deliveries x v.ids there in
            let same_id : k ≡ x.id = ground (
              arith,
              first_sound (by_delivery hmac) db.deliveries x there,
              v.deliveries k x.id d x here same_row,
              eq_iff x.delivery_hmac hmac,
            ) in
            let after =
              find-first delivery_key (by_delivery hmac)
                (changed conversations exchanges db).deliveries x changed-IsValid.ids
                (stays ∙ there) in
            ground (arith, same_id, same_row, after)
      ]

  pub changed-Tied :
      (hmac : String) (h : Handler)
      → first (by_delivery hmac) (changed conversations exchanges db).deliveries
        ≡ first (by_delivery hmac) db.deliveries
      → Tied hmac db h
      → Tied hmac (changed conversations exchanges db) h
  changed-Tied hmac (marking binding_id message r) stays tied = λ mine.
      elim (Option-cases (row db r.outbound_id)) [
        | inl gone ↦ absurd (rw gone at (tied mine))
        | inr (d, here) ↦
            let named : d.delivery_hmac ≡ message.delivery_hmac = rw here at (tied mine) in
            let left =
              row_stays hmac r.outbound_id d stays here
                (ground (arith, named, eq_iff message.delivery_hmac hmac)) in
            rw left named
      ]
  changed-Tied hmac _ stays tied = tt
