-- ===== src/Examples/Recipients.antt =====
-- The theorems on channels/recipients.py, at registries that forward to one another.
use legal_chatbot_ueb_demo_s.Prelude.{
  ℕ, ◌≤◌, ◌<◌, ◌≡◌, ◌≢◌, refl, String, none, some, List, [], ◌∷◌, length, arith, ◌==◌,
  if◌then◌else◌,
}
use legal_chatbot_ueb_demo_s.Channels.Recipients.{
  ChatId, number_id, Registry, Heap, get, trim, remember_here, target, remember, resolve, clear,
}
use legal_chatbot_ueb_demo_s.Channels.Recipients.Cache.{
  recents, remember_all, remember_all_lem, remember_here_bounded,
}
use legal_chatbot_ueb_demo_s.Channels.Recipients.Forwarding.{remember_through}

abbrev small : Registry
small = record { maximum = 2; recipients = []; forwarded_to = none }

abbrev some_history : List (String × ChatId)
some_history =
    ("a", number_id 4) ∷ ("c", number_id 3) ∷ ("b", number_id 2) ∷ ("a", number_id 1) ∷ []

remember_all_lem_example :
    (remember_all some_history small).recipients ≡ trim 2 (recents some_history)
remember_all_lem_example = remember_all_lem some_history small refl

remember_here_bounded_example :
    (length (remember_here "a" (number_id 1) small).recipients ≤ 2)
    × (0 < 2 → get "a" (remember_here "a" (number_id 1) small).recipients ≡ some (number_id 1))
remember_here_bounded_example = remember_here_bounded "a" (number_id 1) small

-- The registry at 0 forwards to the one at 1.
abbrev two_registries : Heap
two_registries x = if x == 0 then record small { forwarded_to = some 1 } else small

remember_through_example :
    (heap' : Heap) × (remember 2 0 "a" (number_id 1) two_registries ≡ some heap')
    × (resolve 2 0 "a" heap' ≡ some (some (number_id 1)))
    × ((x : ℕ) → x ≢ 1 → heap' x ≡ two_registries x)
    × (heap'' : Heap) × (clear 2 0 (some "a") heap' ≡ some heap'')
    × (resolve 2 0 "a" heap'' ≡ some none)
unfolding target
remember_through_example =
    remember_through 2 0 1 "a" (number_id 1) two_registries refl (omega arith)
