-- ===== src/Channels/Recipients.antt =====
-- channels/recipients.py: the bounded, in-memory map from identities to chat identifiers. The
-- `OrderedDict` is the list of its items, the oldest first. A registry object may forward to another
-- one (`bind`), so the objects stand in a heap: a function from addresses to objects.
pub mod Cache
pub mod Forwarding
use legal_chatbot_ueb_demo_s.Prelude.{
  ℕ, zero, suc, ◌+◌, ◌-◌, ◌≤◌, String, ◌≡◌, refl, Option, none, some, List, [], ◌∷◌, ◌++◌, arith,
  str_eq, eq_iff, ltb, ◌==◌, if◌then◌else◌, length, drop, true, false,
}

-- `str | int`
pub data ChatId : Type 0 where
  text_id : String → ChatId
  number_id : ℕ → ChatId

abbrev pub Items : Type 0
Items = List (String × ChatId)

pub record Registry : Type 0 where
  pub maximum : ℕ
  pub recipients : Items
  pub forwarded_to : Option ℕ

-- `OrderedDict.pop(key, None)`
unfoldable pub pop : String → Items → Items
pop k [] = []
pop k ((j, c) ∷ items) = let rest = pop k items in if str_eq j k then rest else (j, c) ∷ rest

-- `dict.get`
unfoldable pub get : String → Items → Option ChatId
get k [] = none
get k ((j, c) ∷ items) = if str_eq j k then some c else get k items

-- `while len(self._recipients) > self._maximum: self._recipients.popitem(last=False)`
unfoldable pub trim : ℕ → Items → Items
trim maximum [] = []
trim maximum (x ∷ items) =
    let rest = trim maximum items in if ltb maximum (length (x ∷ items)) then rest else x ∷ items

-- The part of `remember` that runs on the registry that is not forwarded. The key was just popped,
-- so the assignment appends.
unfoldable pub remember_here : String → ChatId → Registry → Registry
unfolding pop trim
remember_here hmac chat r = record r {
  recipients = trim r.maximum (pop hmac r.recipients ++ (hmac, chat) ∷ []);
}

unfoldable pub clear_here : Option String → Registry → Registry
unfolding pop
clear_here none r = record r { recipients = [] }
clear_here (some hmac) r = record r { recipients = pop hmac r.recipients }

abbrev pub Heap : Type 0
Heap = ℕ → Registry

abbrev pub write : ℕ → Registry → Heap → Heap
write a r heap x = if x == a then r else heap x

-- The object that a call on the object at `a` ends at; `none` if the forwarding does not end within
-- the fuel (Python would raise `RecursionError`).
unfoldable pub target : ℕ → ℕ → Heap → Option ℕ
target zero a heap = none
target (suc fuel) a heap = elim ((heap a).forwarded_to) [
  | none ↦ some a
  | some b ↦ target fuel b heap
]

-- The public methods, with fuel for the forwarding.
unfoldable pub remember : ℕ → ℕ → String → ChatId → Heap → Option Heap
unfolding target remember_here
remember fuel a hmac chat heap = elim (target fuel a heap) [
  | none ↦ none
  | some b ↦ some (write b (remember_here hmac chat (heap b)) heap)
]

unfoldable pub resolve : ℕ → ℕ → String → Heap → Option (Option ChatId)
unfolding target get
resolve fuel a hmac heap = elim (target fuel a heap) [
  | none ↦ none
  | some b ↦ some (get hmac (heap b).recipients)
]

unfoldable pub clear : ℕ → ℕ → Option String → Heap → Option Heap
unfolding target clear_here
clear fuel a hmac heap = elim (target fuel a heap) [
  | none ↦ none
  | some b ↦ some (write b (clear_here hmac (heap b)) heap)
]

unfoldable pub bind : ℕ → ℕ → Heap → Heap
bind a b heap = write a (record (heap a) { forwarded_to = some b }) heap

unfoldable pub unbind : ℕ → Heap → Heap
unbind a heap = write a (record (heap a) { forwarded_to = none }) heap
