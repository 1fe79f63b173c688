-- ===== src/Conversation/Calls/Processing.antt =====
-- At most one exchange of a conversation is being processed.
use legal_chatbot_ueb_demo_s.Prelude.{
  ℕ, suc, ◌≤◌, ◌≡◌, refl, false, List, [], ◌∷◌, arith, if◌then◌else◌,
}
use legal_chatbot_ueb_demo_s.Table.{first, exists}
use legal_chatbot_ueb_demo_s.Unicode.{Unicode}
use legal_chatbot_ueb_demo_s.Conversation.Store.{Exchange, Database}
use legal_chatbot_ueb_demo_s.Conversation.Queries.{is_processing_in}

unfoldable pub processing_count : ℕ → List Exchange → ℕ
processing_count conversation [] = 0
processing_count conversation (e ∷ es) =
    let rest = processing_count conversation es in
    if is_processing_in conversation e then suc rest else rest

none-count :
    (c : ℕ) (es : List Exchange)
    → exists (is_processing_in c) es ≡ false
    → processing_count c es ≡ 0
unfolding processing_count first
none-count c [] h = refl
none-count c (e ∷ es) h = ground (arith, none-count c es)

abbrev pub OneEach : Database → Type 0
OneEach db = (conversation : ℕ) → processing_count conversation db.exchanges ≤ 1
