-- ===== src/Conversation/Completion/Answers.antt =====
-- Answers of the chat package (its models allow a line break in them) and `complete` of
-- conversation/repository.py, whose result contract does not.
use legal_chatbot_ueb_demo_s.Prelude.{ℕ, ◌≡◌, refl, true, none, Result, ok, err, arith}
use legal_chatbot_ueb_demo_s.Unicode.{
  Unicode, newline, normalized, contains_char, normalize_safe_text, multiline_unsafe,
}
use legal_chatbot_ueb_demo_s.Channels.Models.{Datetime}
use legal_chatbot_ueb_demo_s.Conversation.Models.{ConversationErrorCode}
use legal_chatbot_ueb_demo_s.Conversation.Store.{
  ChatResult, Stored, stored, Database, persisted_exchange,
}
use legal_chatbot_ueb_demo_s.Conversation.Exchanges.{Reservation}
use legal_chatbot_ueb_demo_s.Conversation.Completion.{StateUpdate, complete}
use legal_chatbot_ueb_demo_s.Conversation.Completion.Completing.{CompletesOr, complete-Completes}

unpersisted :
    (u : Unicode) (chat : ChatResult) (p : Stored)
    → normalize_safe_text u chat.answer ≡ none
    → persisted_exchange u (stored chat) ≡ ok p
    → ⊥
unfolding persisted_exchange
unpersisted u chat p refused h = ground (arith, refused)

module _ (u : Unicode) (retention retained : ℕ) (r : Reservation) (chat : ChatResult)
    (up : StateUpdate) where
  lost :
      (now : Datetime) (db : Database) (o : Result ConversationErrorCode Stored × Database)
      → normalize_safe_text u chat.answer ≡ none
      → CompletesOr u retention retained r chat up now db o
      → (e : ConversationErrorCode) × (o ≡ (err e, db))
  lost now db (ok p, db') refused done = absurd (unpersisted u chat p refused done.persisted)
  lost now db (err e, db') refused kept = (e, rw kept refl)

  -- An answer that is normalized and has a line break, where the line break is a control character, is
  -- never completed: `complete` raises an error and the exchange is left as it was.
  pub multiline_answer_lost :
      (now : Datetime) (db : Database)
      → u.is_control newline ≡ true
      → normalized u chat.answer ≡ chat.answer
      → contains_char newline chat.answer ≡ true
      → (e : ConversationErrorCode) × (complete u retention retained r chat up now db ≡ (err e, db))
  multiline_answer_lost now db control stable line =
      lost now db (complete u retention retained r chat up now db)
        (multiline_unsafe u chat.answer control stable line)
        (complete-Completes u retention retained r chat up now db)
