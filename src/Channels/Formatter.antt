-- ===== src/Channels/Formatter.antt =====
-- `ChannelFormatter` of channels/formatter.py: the text of a reply, and what a long one becomes.
pub mod Formats
use legal_chatbot_ueb_demo_s.Prelude.{
  ℕ, Bool, true, false, Option, none, some, List, [], ◌∷◌, ◌++◌, leb, if◌then◌else◌, length, Text,
  codes, Result, ok, err,
}
use legal_chatbot_ueb_demo_s.Unicode.{Unicode, normalize_formatted_reply_text}
use legal_chatbot_ueb_demo_s.Channels.Models.{ErrorCode, FormattedReply, formatted_reply}
use legal_chatbot_ueb_demo_s.Conversation.Store.{ChatOutcome, ChatResult, Citation, TrustLabel}
use legal_chatbot_ueb_demo_s.Conversation.Policy.Labels.{join}
use legal_chatbot_ueb_demo_s.Conversation.Results.{grounded_result}

-- What `format` raises: a channel error, or the error of a validator that it does not catch.
pub data FormatFault : Type 0 where
  channel_error : ErrorCode → FormatFault
  uncaught : FormatFault

abbrev pub overflow_reply_text : Text
overflow_reply_text =
    codes
      "Dạ, em không thể gửi toàn bộ câu trả lời qua kênh này vì quá dài. Thầy/cô vui lòng thử lại với câu hỏi cụ thể hơn."

-- A part of the line of a citation, where its field is there.
abbrev labelled_part : Text → Option Text → List Text → List Text
labelled_part label none parts = parts
labelled_part label (some value) parts = (label ++ value) ∷ parts

abbrev notes : TrustLabel → List Text
notes TrustLabel.official_legal = []
notes TrustLabel.official_legal_pinned_exception =
    codes
      "Lưu ý: Nội dung nguồn chính thức được truy xuất theo ngoại lệ TOFU/SPKI do người dùng phê duyệt; chuỗi CA đã được xác minh nhưng tên máy chủ chưa được xác minh"
    ∷ []
notes TrustLabel.manual_snapshot =
    codes
      "Lưu ý: Đây là bản chụp dữ liệu được nhập thủ công cho demo, không phải kết nối trực tiếp với cơ sở dữ liệu pháp luật chính thức"
    ∷ []

-- `_format_citation`
unfoldable pub format_citation : Citation → Text
unfolding join
format_citation c = join (codes "; ") (
    (codes "Nguồn: " ++ c.source_id)
    ∷ labelled_part (codes "Số văn bản: ") c.document_number (
        labelled_part (codes "Tiêu đề: ") c.title
          (labelled_part (codes "URL: ") c.canonical_url (notes c.evidence_trust_label))))

unfoldable pub citation_lines : List Citation → List Text
unfolding format_citation
citation_lines [] = []
citation_lines (c ∷ cs) = format_citation c ∷ citation_lines cs

-- `_format_answer`
unfoldable pub format_answer : ChatResult → Text
unfolding citation_lines join
format_answer r = r.answer ++ (codes "\n\n" ++ join (codes "\n") (citation_lines r.citations))

unfoldable pub reply_text : ChatOutcome → ChatResult → Text
unfolding format_answer
reply_text ChatOutcome.answer r = format_answer r
reply_text _ r = r.answer

unfoldable pub reply_citation_count : ChatOutcome → ChatResult → ℕ
reply_citation_count ChatOutcome.answer r = length r.citations
reply_citation_count _ r = 0

abbrev or_uncaught : Option FormattedReply → Result FormatFault FormattedReply
or_uncaught none = err FormatFault.uncaught
or_uncaught (some reply) = ok reply

-- The constructor: a bound that the overflow text does not fit is refused.
unfoldable pub formatter_settings : ℕ → Result FormatFault ℕ
formatter_settings max_outbound_chars =
    if leb (length overflow_reply_text) max_outbound_chars
    then ok max_outbound_chars
    else err (FormatFault.channel_error ErrorCode.config_invalid)

-- `format`
unfoldable pub format : Unicode → ℕ → ChatResult → Result FormatFault FormattedReply
unfolding grounded_result normalize_formatted_reply_text formatted_reply reply_text
    reply_citation_count
format u max_outbound_chars result = elim (grounded_result u result) [
  | err f ↦ err (FormatFault.channel_error ErrorCode.channel_malformed)
  | ok r ↦ elim (normalize_formatted_reply_text u (reply_text r.outcome r)) [
    | none ↦ err (FormatFault.channel_error ErrorCode.channel_malformed)
    | some t ↦
        if leb (length t) max_outbound_chars
        then or_uncaught (formatted_reply u t (reply_citation_count r.outcome r) false)
        else or_uncaught (formatted_reply u overflow_reply_text 0 true)
  ]
]
