-- ===== src/Examples/Bindings.antt =====
-- The theorems on the binding repository of channels/repository.py, at a table with two rows.
use legal_chatbot_ueb_demo_s.Prelude.{
  ℕ, ◌≡◌, ◌≢◌, refl, true, inr, some, [], ◌∷◌, arith, eq_iff, err, List,
}
use legal_chatbot_ueb_demo_s.Table.{find, first}
use legal_chatbot_ueb_demo_s.Channels.Models.{
  BindingStatus, aware, valid_hmac, valid_safe_error_code, binding_failed,
}
use legal_chatbot_ueb_demo_s.Channels.Store.{Binding}
use legal_chatbot_ueb_demo_s.Channels.Bindings.{reserve, activate, fail}
use legal_chatbot_ueb_demo_s.Channels.Bindings.Validity.{
  IsValid, row, reserve-IsValid, settled-IsValid,
}
use legal_chatbot_ueb_demo_s.Channels.Bindings.Refinement.{
  leased_to, bound, broken, slot, spec_reserve, Moves, reserve_refines, reserve_race,
}
use legal_chatbot_ueb_demo_s.Channels.Bindings.Fencing.{
  active_with, failed_at, stale_settles_nothing, takeover_fences, activate_refines, fail_refines,
}
use legal_chatbot_ueb_demo_s.Channels.Bindings.Permanence.{
  Call, reserving, perform_all, bound_forever,
}
use legal_chatbot_ueb_demo_s.Examples.{first_identity, second_identity, some_database}

first_fits : valid_hmac first_identity ≡ true
unfolding valid_hmac
first_fits = refl

second_fits : valid_hmac second_identity ≡ true
unfolding valid_hmac
second_fits = refl

pub some_bindings-IsValid : IsValid some_database
unfolding find
some_bindings-IsValid = record {
  ids = (refl, (refl, tt));
  shaped = λ k b h. ground arith;
  checked = λ k b h. ground (arith, first_fits, second_fits);
  identities = λ i j b c p q e. ground (arith, eq_iff first_identity second_identity);
  conversations = λ i j b c p q sb sc e. ground arith;
}

reserve_refines_example :
    Moves first_identity
      (spec_reserve 3 6_000_000 126_000_000 (slot some_database first_identity))
      some_database
      (reserve (λ d. d) 3 120 first_identity (aware 6_000_000) some_database)
unfolding valid_hmac find
reserve_refines_example =
    reserve_refines 3 120 first_identity 6_000_000 some_database some_bindings-IsValid refl refl

reserve_race_example :
    reserve
      (λ _. some_database)
      3
      120
      first_identity
      (aware 6_000_000)
      (record some_database { bindings = [] })
    ≡ reserve (λ d. d) 3 120 first_identity (aware 6_000_000) some_database
unfolding valid_hmac first
reserve_race_example =
    reserve_race (λ _. some_database) 3 120 first_identity 6_000_000
      (record some_database { bindings = [] }) refl refl

reserve-IsValid_example :
    IsValid (reserve (λ d. d) 3 120 first_identity (aware 6_000_000) some_database).1
reserve-IsValid_example =
    reserve-IsValid (λ d. d) 3 120 first_identity (aware 6_000_000) some_database
      some_bindings-IsValid some_bindings-IsValid

settled-IsValid_example :
    IsValid (activate (leased_to 1 5_000_000) 8 (aware 4_000_000) some_database).1
    × IsValid (fail (leased_to 1 5_000_000) "BINDING_FAILED" (aware 4_000_000) some_database).1
settled-IsValid_example =
    settled-IsValid (leased_to 1 5_000_000) 8 "BINDING_FAILED" (aware 4_000_000) some_database
      some_bindings-IsValid

stale_settles_nothing_example :
    (activate (leased_to 1 5_000_000) 8 (aware 6_000_000) some_database
      ≡ (err binding_failed, some_database))
    × (fail (leased_to 1 5_000_000) "BINDING_FAILED" (aware 6_000_000) some_database
        ≡ (err binding_failed, some_database))
unfolding valid_safe_error_code first
stale_settles_nothing_example =
    stale_settles_nothing first_identity some_database 1 5_000_000 5_000_000 6_000_000 8
      "BINDING_FAILED" some_bindings-IsValid refl (inr (omega arith)) refl

takeover_fences_example :
    let taken = (reserve (λ d. d) 3 120 first_identity (aware 6_000_000) some_database).1 in
    (activate (leased_to 1 5_000_000) 8 (aware 7_000_000) taken ≡ (err binding_failed, taken))
    × (fail (leased_to 1 5_000_000) "BINDING_FAILED" (aware 7_000_000) taken
        ≡ (err binding_failed, taken))
unfolding valid_hmac valid_safe_error_code first find
takeover_fences_example =
    takeover_fences first_identity some_database 1 5_000_000 3 120 6_000_000 7_000_000 8
      "BINDING_FAILED" some_bindings-IsValid refl (omega arith) (omega arith) refl refl refl

only_seven :
    (k : ℕ) (r : Binding)
    → row some_database k ≡ some r
    → r.status ≡ BindingStatus.active
    → r.conversation_id ≢ some 8
unfolding find
only_seven k r h s e = ground arith

activate_refines_example :
    Moves first_identity
      (bound 1 8, active_with 1 8)
      some_database
      (activate (leased_to 1 5_000_000) 8 (aware 4_000_000) some_database)
unfolding first
activate_refines_example =
    activate_refines first_identity some_database 1 5_000_000 4_000_000 some_bindings-IsValid refl
      (omega arith) 8 refl only_seven

fail_refines_example :
    Moves first_identity
      (broken 1, failed_at 1)
      some_database
      (fail (leased_to 1 5_000_000) "BINDING_FAILED" (aware 4_000_000) some_database)
unfolding first valid_safe_error_code
fail_refines_example =
    fail_refines first_identity some_database 1 5_000_000 4_000_000 some_bindings-IsValid refl
      (omega arith) "BINDING_FAILED" refl

abbrev later_calls : List Call
later_calls =
    reserving 3 120 second_identity (aware 6_000_000)
    ∷ reserving 4 120 first_identity (aware 6_000_000)
    ∷ []

bound_forever_example : slot (perform_all later_calls some_database) second_identity ≡ bound 2 7
unfolding first
bound_forever_example =
    bound_forever later_calls second_identity 2 7 some_database some_bindings-IsValid refl
