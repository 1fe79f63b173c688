-- ===== src/Conversation/Completion/Distinct.antt =====
-- Rows with distinct identifiers, of which the names of a plan select what it was made of.
use legal_chatbot_ueb_demo_s.Prelude.{
  ℕ, suc, ◌≡◌, refl, true, false, none, List, [], ◌∷◌, leb, ◌==◌, if◌then◌else◌, take, arith,
  Bool-cases, inl, inr, zero,
}
use legal_chatbot_ueb_demo_s.Table.{member, find, Unique}
use legal_chatbot_ueb_demo_s.Conversation.Store.{Exchange, exchange_key}
use legal_chatbot_ueb_demo_s.Conversation.Queries.{
  is_terminal_in, insert_ordered, terminal_rows, ids,
}
use legal_chatbot_ueb_demo_s.Conversation.Completion.Rows.{named}

-- No identifier twice.
abbrev pub Distinct : List Exchange → Type 0
Distinct [] = Unit
Distinct (e ∷ es) = (member e.id (ids es) ≡ false) × Distinct es

find-member :
    (k : ℕ) (es : List Exchange) → find exchange_key k es ≡ none → member k (ids es) ≡ false
unfolding find
find-member k [] h = refl
find-member k (e ∷ es) h = ground (arith, find-member k es)

pub Unique-Distinct : (es : List Exchange) → Unique exchange_key es → Distinct es
Unique-Distinct [] u = tt
Unique-Distinct (e ∷ es) u = (find-member e.id es u.0, Unique-Distinct es u.1)

pub member-insert_ordered :
    (k : ℕ) (e : Exchange) (xs : List Exchange)
    → member k (ids (insert_ordered e xs)) ≡ (if e.id == k then true else member k (ids xs))
unfolding insert_ordered
member-insert_ordered k e [] = refl
member-insert_ordered k e (x ∷ xs) = ground (arith, member-insert_ordered k e xs)

insert_ordered-Distinct :
    (e : Exchange) (xs : List Exchange)
    → member e.id (ids xs) ≡ false
    → Distinct xs
    → Distinct (insert_ordered e xs)
unfolding insert_ordered
insert_ordered-Distinct e [] h d = (refl, tt)
insert_ordered-Distinct e (x ∷ xs) h d = elim (Bool-cases (leb e.ordinal x.ordinal)) [
  | inl le ↦ rw le (h, d)
  | inr gt ↦ rw gt (
    ground (arith, member-insert_ordered x.id e xs, d.0),
    insert_ordered-Distinct e xs (ground arith) d.1,
  )
]

pub member-terminal_rows :
    (k c : ℕ) (es : List Exchange)
    → member k (ids es) ≡ false
    → member k (ids (terminal_rows c es)) ≡ false
unfolding terminal_rows
member-terminal_rows k c [] h = refl
member-terminal_rows k c (e ∷ es) h =
    ground (arith, member-terminal_rows k c es, member-insert_ordered k e (terminal_rows c es))

pub terminal_rows-Distinct :
    (c : ℕ) (es : List Exchange) → Distinct es → Distinct (terminal_rows c es)
unfolding terminal_rows
terminal_rows-Distinct c [] d = tt
terminal_rows-Distinct c (e ∷ es) d = elim (Bool-cases (is_terminal_in c e)) [
  | inl there ↦ rw there (
      insert_ordered-Distinct e (terminal_rows c es) (member-terminal_rows e.id c es d.0)
        (terminal_rows-Distinct c es d.1))
  | inr other ↦ rw other (terminal_rows-Distinct c es d.1)
]

pub member-take :
    (k n : ℕ) (xs : List Exchange) → member k (ids xs) ≡ false → member k (ids (take n xs)) ≡ false
member-take k zero xs h = refl
member-take k (suc n) [] h = refl
member-take k (suc n) (x ∷ xs) h = ground (arith, member-take k n xs)

named-add :
    (k : ℕ) (plan : List ℕ) (xs : List Exchange)
    → member k (ids xs) ≡ false
    → named (k ∷ plan) xs ≡ named plan xs
unfolding named
named-add k plan [] h = refl
named-add k plan (x ∷ xs) h = ground (arith, named-add k plan xs)

named_nothing : (xs : List Exchange) → named [] xs ≡ []
unfolding named
named_nothing [] = refl
named_nothing (x ∷ xs) = named_nothing xs

pub named-take : (n : ℕ) (xs : List Exchange) → Distinct xs → named (ids (take n xs)) xs ≡ take n xs
unfolding named
named-take zero xs d = named_nothing xs
named-take (suc n) [] d = refl
named-take (suc n) (x ∷ xs) d = ground (arith, named-take n xs, named-add x.id (ids (take n xs)) xs)
