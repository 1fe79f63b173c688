-- ===== src/Chat.antt =====
-- The grounded chat, src/legal_chatbot/chat.
pub mod Words
pub mod Retrieved
pub mod Planner
pub mod Prompt
pub mod Policy
pub mod Grounding
pub mod Service
