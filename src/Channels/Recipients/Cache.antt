-- ===== src/Channels/Recipients/Cache.antt =====
-- The registry as a bounded cache: what `resolve` returns after `remember` and `clear`.
use text.Mathlib.TextPositions.{eq_refl}
use legal_chatbot_ueb_demo_s.Prelude.{
  ℕ, zero, suc, ◌+◌, ◌≤◌, ◌<◌, String, ◌≡◌, refl, none, some, List, [], ◌∷◌, ◌++◌, arith, str_eq,
  eq_iff, ltb, if◌then◌else◌, length, length-append, Bool-cases, inl, inr, ◌∙◌, sym,
}
use legal_chatbot_ueb_demo_s.Channels.Recipients.{
  ChatId, Items, Registry, pop, get, trim, remember_here,
}

-- A key occurs at most once.
abbrev pub Nodup : Items → Type 0
Nodup [] = Unit
Nodup (x ∷ items) = (get x.0 items ≡ none) × Nodup items

pub get-pop :
    (k j : String) (items : Items)
    → get j (pop k items) ≡ (if str_eq k j then none else get j items)
unfolding get pop
get-pop k j [] = ground arith
get-pop k j ((i, c) ∷ items) = ground (arith, get-pop k j items, eq_iff i k, eq_iff i j, eq_iff k j)

pop-Nodup : (k : String) (items : Items) → Nodup items → Nodup (pop k items)
unfolding pop
pop-Nodup k [] n = tt
pop-Nodup k ((i, c) ∷ items) n = ground (arith, pop-Nodup k items, get-pop k i items)

length-pop : (k : String) (items : Items) → length (pop k items) ≤ length items
unfolding pop
length-pop k [] = omega arith
length-pop k ((i, c) ∷ items) = ground (arith, length-pop k items)

get-append :
    (j : String) (items rest : Items)
    → get j (items ++ rest) ≡ elim (get j items) [ none ↦ get j rest | some c ↦ some c ]
unfolding get
get-append j [] rest = refl
get-append j ((i, c) ∷ items) rest = ground (arith, get-append j items rest)

pop_absent : (k : String) (items : Items) → get k items ≡ none → pop k items ≡ items
unfolding get pop
pop_absent k [] e = refl
pop_absent k ((i, c) ∷ items) e = ground (arith, pop_absent k items)

-- A key occurs once, so popping it shortens the map by one at most.
length-pop-ge : (k : String) (items : Items) → Nodup items → length items ≤ length (pop k items) + 1
unfolding pop
length-pop-ge k [] n = omega arith
length-pop-ge k ((i, c) ∷ items) n =
    ground (arith, length-pop-ge k items, pop_absent k items, eq_iff i k)

length-trim : (maximum : ℕ) (items : Items) → length (trim maximum items) ≤ maximum
unfolding trim
length-trim maximum [] = omega arith
length-trim maximum (x ∷ items) = ground (arith, length-trim maximum items)

trim_fitting : (maximum : ℕ) (items : Items) → length items ≤ maximum → trim maximum items ≡ items
unfolding trim
trim_fitting maximum [] h = refl
trim_fitting maximum (x ∷ items) h = ground arith

trim_excess :
    (maximum : ℕ) (x : String × ChatId) (items : Items)
    → maximum ≤ length items
    → trim maximum (x ∷ items) ≡ trim maximum items
unfolding trim
trim_excess maximum x items h = ground arith

pop-cons :
    (k i : String) (c : ChatId) (items : Items)
    → pop k ((i, c) ∷ items) ≡ (if str_eq i k then pop k items else (i, c) ∷ pop k items)
unfolding pop
pop-cons k i c items = refl

-- Trimming before a `remember` does not show after it.
trim-pop-trim :
    (maximum : ℕ) (k : String) (x : String × ChatId) (items : Items)
    → Nodup items
    → trim maximum (pop k (trim maximum items) ++ x ∷ []) ≡ trim maximum (pop k items ++ x ∷ [])
trim-pop-trim maximum k x [] n = unfold trim pop in refl
trim-pop-trim maximum k x ((i, c) ∷ items) n =
    elim (Bool-cases (ltb maximum (length ((i, c) ∷ items)))) [
      | inr fits ↦ rw (trim_fitting maximum ((i, c) ∷ items) (ground arith)) refl
      | inl excess ↦
          rw (trim_excess maximum (i, c) items (ground arith)) (
            trim-pop-trim maximum k x items n.1
            ∙ dropped (length-pop-ge k items n.1) (ground arith))
    ]
  where
    dropped :
        length items ≤ length (pop k items) + 1
        → maximum ≤ length items
        → trim maximum (pop k items ++ x ∷ []) ≡ trim maximum (pop k ((i, c) ∷ items) ++ x ∷ [])
    dropped long excess = elim (Bool-cases (str_eq i k)) [
      | inl same ↦ rw (pop-cons k i c items, same)
      | inr other ↦
          rw (pop-cons k i c items, other)
            (sym (
              trim_excess maximum (i, c) (pop k items ++ x ∷ [])
                (omega (arith, length-append (pop k items) (x ∷ []), long, excess))))
    ]

-- The history of `remember` calls, the latest first, on a registry with no bound.
unfoldable pub recents : List (String × ChatId) → Items
recents [] = []
recents ((k, c) ∷ older) = pop k (recents older) ++ (k, c) ∷ []

-- The same history on a registry with a bound.
unfoldable pub remember_all : List (String × ChatId) → Registry → Registry
remember_all [] r = r
remember_all ((k, c) ∷ older) r = remember_here k c (remember_all older r)

append-Nodup :
    (k : String) (c : ChatId) (items : Items)
    → Nodup items
    → get k items ≡ none
    → Nodup (items ++ (k, c) ∷ [])
unfolding get
append-Nodup k c [] n absent = (refl, tt)
append-Nodup k c ((i, e) ∷ items) n absent =
    ground (arith, append-Nodup k c items, get-append i items ((k, c) ∷ []), eq_iff i k, eq_iff k i)

trim-Nodup : (maximum : ℕ) (items : Items) → Nodup items → Nodup (trim maximum items)
unfolding trim
trim-Nodup maximum [] n = tt
trim-Nodup maximum (x ∷ items) n = ground (arith, trim-Nodup maximum items)

recents-Nodup : (history : List (String × ChatId)) → Nodup (recents history)
unfolding recents
recents-Nodup [] = tt
recents-Nodup ((k, c) ∷ older) =
    append-Nodup k c (pop k (recents older)) (pop-Nodup k (recents older) (recents-Nodup older))
      (ground (arith, get-pop k k (recents older), eq_refl k))

recipients-remember_here :
    (k : String) (c : ChatId) (r : Registry)
    → (remember_here k c r).recipients ≡ trim r.maximum (pop k r.recipients ++ (k, c) ∷ [])
unfolding remember_here
recipients-remember_here k c r = refl

maximum-remember_all :
    (history : List (String × ChatId)) (r : Registry) → (remember_all history r).maximum ≡ r.maximum
unfolding remember_all remember_here
maximum-remember_all [] r = refl
maximum-remember_all ((k, c) ∷ older) r = maximum-remember_all older r

get-trim :
    (k : String) (maximum : ℕ) (items : Items)
    → get k items ≡ none
    → get k (trim maximum items) ≡ none
unfolding get trim
get-trim k maximum [] e = refl
get-trim k maximum ((i, c) ∷ items) e = ground (arith, get-trim k maximum items)

-- The newest item survives.
trim-append :
    (maximum : ℕ) (x : String × ChatId) (items : Items)
    → trim (suc maximum) (items ++ x ∷ []) ≡ trim maximum items ++ x ∷ []
unfolding trim
trim-append maximum x [] = ground arith
trim-append maximum x (y ∷ items) =
    ground (arith, trim-append maximum x items, length-append items (x ∷ []))

get-single : (k : String) (c : ChatId) → get k ((k, c) ∷ []) ≡ some c
unfolding get
get-single k c = ground (arith, eq_refl k)

pub newest :
    (k : String) (c : ChatId) (maximum : ℕ) (items : Items)
    → 0 < maximum
    → get k (trim maximum (pop k items ++ (k, c) ∷ [])) ≡ some c
newest k c zero items h = elim h [ ]
newest k c (suc m) items h = rw (trim-append m (k, c) (pop k items)) (
    ground (
      arith,
      get-append k (trim m (pop k items)) ((k, c) ∷ []),
      get-trim k m (pop k items),
      get-pop k k items,
      eq_refl k,
      get-single k c,
    ))

-- A registry that starts empty holds, after any history of `remember` calls, the most recently
-- remembered identities with their last chat identifiers, as many as its bound allows: what it has
-- evicted on the way does not show.
pub remember_all_lem :
    (history : List (String × ChatId)) (r : Registry)
    → r.recipients ≡ []
    → (remember_all history r).recipients ≡ trim r.maximum (recents history)
unfolding remember_all recents
remember_all_lem [] r e = rw e (unfold trim in refl)
remember_all_lem ((k, c) ∷ older) r e =
    rw
      (
        recipients-remember_here k c (remember_all older r),
        maximum-remember_all older r,
        remember_all_lem older r e,
      )
      (trim-pop-trim r.maximum k (k, c) (recents older) (recents-Nodup older))

-- After `remember` the bound of the registry is kept, and if the bound is not 0 the identity resolves
-- to its chat identifier.
pub remember_here_bounded :
    (hmac : String) (chat : ChatId) (r : Registry)
    → (length (remember_here hmac chat r).recipients ≤ r.maximum)
      × (0 < r.maximum → get hmac (remember_here hmac chat r).recipients ≡ some chat)
remember_here_bounded hmac chat r = rw (recipients-remember_here hmac chat r) (
  length-trim r.maximum (pop hmac r.recipients ++ (hmac, chat) ∷ []),
  newest hmac chat r.maximum r.recipients,
)
