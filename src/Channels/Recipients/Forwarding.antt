-- ===== src/Channels/Recipients/Forwarding.antt =====
-- Registries that forward to one another: a call on any of them acts on the one at the end.
use text.Mathlib.TextPositions.{eq_refl}
use legal_chatbot_ueb_demo_s.Prelude.{
  ℕ, zero, suc, ◌<◌, String, ◌≡◌, ◌≢◌, refl, none, some, arith, Option-cases, ◌∙◌, inl, inr,
}
use legal_chatbot_ueb_demo_s.Channels.Recipients.{
  ChatId, Registry, Heap, write, target, remember_here, clear_here, remember, resolve, clear,
}
use legal_chatbot_ueb_demo_s.Channels.Recipients.Cache.{newest, get-pop}

-- A write that leaves the forwarding of its object alone does not move any target.
target-write :
    (fuel a b : ℕ) (r : Registry) (heap : Heap)
    → r.forwarded_to ≡ (heap b).forwarded_to
    → target fuel a (write b r heap) ≡ target fuel a heap
unfolding target
target-write zero a b r heap e = refl
target-write (suc fuel) a b r heap e = elim (Option-cases ((heap a).forwarded_to)) [
  | inl last ↦ ground arith
  | inr (c, next) ↦ ground (arith, target-write fuel c b r heap e)
]

-- The target of a call forwards no further.
target-last :
    (fuel a b : ℕ) (heap : Heap) → target fuel a heap ≡ some b → (heap b).forwarded_to ≡ none
unfolding target
target-last zero a b heap h = ground arith
target-last (suc fuel) a b heap h = elim (Option-cases ((heap a).forwarded_to)) [
  | inl last ↦ ground arith
  | inr (c, next) ↦ ground (arith, target-last fuel c b heap)
]

module _ (fuel a b : ℕ) (hmac : String) (chat : ChatId) (heap : Heap)
    (ends : target fuel a heap ≡ some b) (room : 0 < (heap b).maximum) where
  -- Where the forwarding of a registry ends, and at a registry whose bound is not 0: what is
  -- remembered through the first resolves through it, only the registry at the end is changed, and
  -- after a `clear` of the identity through the first it is gone.
  pub remember_through :
      (heap' : Heap) × (remember fuel a hmac chat heap ≡ some heap')
      × (resolve fuel a hmac heap' ≡ some (some chat))
      × ((x : ℕ) → x ≢ b → heap' x ≡ heap x)
      × (heap'' : Heap) × (clear fuel a (some hmac) heap' ≡ some heap'')
      × (resolve fuel a hmac heap'' ≡ some none)
  unfolding remember resolve clear
  remember_through =
      let r1 = remember_here hmac chat (heap b) in
      let r2 = clear_here (some hmac) r1 in
      let h1 = write b r1 heap in
      let ends1 : target fuel a h1 ≡ some b = target-write fuel a b r1 heap refl ∙ ends in
      let ends2 : target fuel a (write b r2 h1) ≡ some b =
        target-write fuel a b r2 h1 (ground arith) ∙ ends1 in
      (
        h1,
        ground arith,
        ground (arith, newest hmac chat (heap b).maximum (heap b).recipients room),
        λ x other. ground arith,
        write b r2 h1,
        ground arith,
        ground (arith, get-pop hmac hmac r1.recipients, eq_refl hmac),
      )
