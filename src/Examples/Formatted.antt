-- ===== src/Examples/Formatted.antt =====
-- The theorem on channels/formatter.py, at an answer with a citation.
use legal_chatbot_ueb_demo_s.Prelude.{refl, arith}
use legal_chatbot_ueb_demo_s.Unicode.{normalize_formatted_reply_text, strip_start, strip_end}
use legal_chatbot_ueb_demo_s.Conversation.Results.{result_route}
use legal_chatbot_ueb_demo_s.Conversation.Service.Replays.{IsGrounded}
use legal_chatbot_ueb_demo_s.Channels.Formatter.{formatter_settings}
use legal_chatbot_ueb_demo_s.Channels.Formatter.Formats.{Formats, format_every}
use legal_chatbot_ueb_demo_s.Examples.System.{ascii}
use legal_chatbot_ueb_demo_s.Examples.Answers.{ascii_closed, grounded_answer}

grounded_answer-IsGrounded : IsGrounded ascii grounded_answer
unfolding result_route strip_start strip_end
grounded_answer-IsGrounded = record {
  text = refl;
  visible = refl;
  short = omega arith;
  routed = refl;
}

format_every_example : Formats ascii 1_994 grounded_answer
unfolding formatter_settings normalize_formatted_reply_text strip_start strip_end
format_every_example =
    format_every ascii ascii_closed 1_994 grounded_answer refl (omega arith) refl
      grounded_answer-IsGrounded
