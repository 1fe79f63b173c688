-- ===== src/Conversation/Completion/Rows.antt =====
-- Exchanges in the order of their ordinals, and those of them that a compaction plan names.
use legal_chatbot_ueb_demo_s.Prelude.{
  ℕ, suc, ◌≤◌, ◌≡◌, refl, true, List, [], ◌∷◌, leb, if◌then◌else◌, length, arith, Bool-cases, inl,
  inr,
}
use legal_chatbot_ueb_demo_s.Table.{member}
use legal_chatbot_ueb_demo_s.Conversation.Store.{Exchange}
use legal_chatbot_ueb_demo_s.Conversation.Queries.{is_terminal_in, insert_ordered, terminal_rows}
use legal_chatbot_ueb_demo_s.Conversation.Completion.{same_ids, terminal_count}

pub length-insert_ordered :
    (e : Exchange) (xs : List Exchange) → length (insert_ordered e xs) ≡ suc (length xs)
unfolding insert_ordered
length-insert_ordered e [] = refl
length-insert_ordered e (x ∷ xs) = ground (arith, length-insert_ordered e xs)

pub length-terminal_rows :
    (c : ℕ) (es : List Exchange) → length (terminal_rows c es) ≡ terminal_count c es
unfolding terminal_rows terminal_count
length-terminal_rows c [] = refl
length-terminal_rows c (e ∷ es) =
    ground (arith, length-terminal_rows c es, length-insert_ordered e (terminal_rows c es))

pub same_ids_refl : (xs : List ℕ) → same_ids xs xs ≡ true
same_ids_refl [] = refl
same_ids_refl (x ∷ xs) = ground (arith, same_ids_refl xs)

-- Rows in the order of their ordinals.
abbrev pub AtLeast : ℕ → List Exchange → Type 0
AtLeast n [] = Unit
AtLeast n (e ∷ es) = (n ≤ e.ordinal) × AtLeast n es

abbrev pub IsOrdered : List Exchange → Type 0
IsOrdered [] = Unit
IsOrdered (e ∷ es) = AtLeast e.ordinal es × IsOrdered es

AtLeast-mono : (m n : ℕ) (es : List Exchange) → m ≤ n → AtLeast n es → AtLeast m es
AtLeast-mono m n [] h a = tt
AtLeast-mono m n (e ∷ es) h a = (omega arith, AtLeast-mono m n es h a.1)

insert_ordered-AtLeast :
    (n : ℕ) (e : Exchange) (xs : List Exchange)
    → n ≤ e.ordinal
    → AtLeast n xs
    → AtLeast n (insert_ordered e xs)
unfolding insert_ordered
insert_ordered-AtLeast n e [] h a = (h, tt)
insert_ordered-AtLeast n e (x ∷ xs) h a = elim (Bool-cases (leb e.ordinal x.ordinal)) [
  | inl le ↦ rw le (h, a)
  | inr gt ↦ rw gt (a.0, insert_ordered-AtLeast n e xs h a.1)
]

insert_ordered-IsOrdered :
    (e : Exchange) (xs : List Exchange) → IsOrdered xs → IsOrdered (insert_ordered e xs)
unfolding insert_ordered
insert_ordered-IsOrdered e [] o = (tt, tt)
insert_ordered-IsOrdered e (x ∷ xs) o = elim (Bool-cases (leb e.ordinal x.ordinal)) [
  | inl le ↦ rw le ((ground arith, AtLeast-mono e.ordinal x.ordinal xs (ground arith) o.0), o)
  | inr gt ↦
      rw gt (
        insert_ordered-AtLeast x.ordinal e xs (ground arith) o.0,
        insert_ordered-IsOrdered e xs o.1,
      )
]

pub terminal_rows-IsOrdered : (c : ℕ) (es : List Exchange) → IsOrdered (terminal_rows c es)
unfolding terminal_rows
terminal_rows-IsOrdered c [] = tt
terminal_rows-IsOrdered c (e ∷ es) = elim (Bool-cases (is_terminal_in c e)) [
  | inl there ↦
      rw there (insert_ordered-IsOrdered e (terminal_rows c es) (terminal_rows-IsOrdered c es))
  | inr other ↦ rw other (terminal_rows-IsOrdered c es)
]

-- The rows of a list that the plan names.
unfoldable pub named : List ℕ → List Exchange → List Exchange
named plan [] = []
named plan (e ∷ es) = let rest = named plan es in if member e.id plan then e ∷ rest else rest

insert_ordered-first :
    (e : Exchange) (xs : List Exchange) → AtLeast e.ordinal xs → insert_ordered e xs ≡ e ∷ xs
unfolding insert_ordered
insert_ordered-first e [] a = refl
insert_ordered-first e (x ∷ xs) a = ground arith

named-AtLeast :
    (n : ℕ) (plan : List ℕ) (xs : List Exchange) → AtLeast n xs → AtLeast n (named plan xs)
unfolding named
named-AtLeast n plan [] a = tt
named-AtLeast n plan (x ∷ xs) a = elim (Bool-cases (member x.id plan)) [
  | inl there ↦ rw there (a.0, named-AtLeast n plan xs a.1)
  | inr other ↦ rw other (named-AtLeast n plan xs a.1)
]

pub named-insert_ordered :
    (plan : List ℕ) (e : Exchange) (xs : List Exchange)
    → IsOrdered xs
    → named plan (insert_ordered e xs)
      ≡ (if member e.id plan then insert_ordered e (named plan xs) else named plan xs)
unfolding named insert_ordered
named-insert_ordered plan e [] o = refl
named-insert_ordered plan e (x ∷ xs) o = elim (Bool-cases (leb e.ordinal x.ordinal)) [
  | inl le ↦
      let below : AtLeast e.ordinal (named plan xs) =
        named-AtLeast e.ordinal plan xs (AtLeast-mono e.ordinal x.ordinal xs (ground arith) o.0) in
      ground (arith, insert_ordered-first e (named plan xs) below)
  | inr gt ↦ ground (arith, named-insert_ordered plan e xs)
]
