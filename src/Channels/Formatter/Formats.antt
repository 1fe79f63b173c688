-- ===== src/Channels/Formatter/Formats.antt =====
-- What channels/formatter.py makes of a result, on every branch.
use legal_chatbot_ueb_demo_s.Prelude.{
  ℕ, ◌≤◌, ◌<◌, ◌≡◌, refl, subst, Bool, true, false, ◌&&◌, none, some, leb, length, Text, ok, err,
  arith, Bool-cases, Option-cases, inl, inr, ◌⊎◌, leb→le,
}
use legal_chatbot_ueb_demo_s.Unicode.{Unicode, normalized, normalize_formatted_reply_text}
use legal_chatbot_ueb_demo_s.Unicode.Substrings.{ClosedUnderSubstring, normalized-normalized}
use legal_chatbot_ueb_demo_s.Channels.Models.{ErrorCode, formatted_reply}
use legal_chatbot_ueb_demo_s.Conversation.Store.{ChatOutcome, ChatResult}
use legal_chatbot_ueb_demo_s.Conversation.Results.{result_route, citation_ids, of_run, route}
use legal_chatbot_ueb_demo_s.Conversation.Snapshots.{nodup}
use legal_chatbot_ueb_demo_s.Conversation.Service.Replays.{IsGrounded, grounded_again}
use legal_chatbot_ueb_demo_s.Channels.Formatter.{
  FormatFault, overflow_reply_text, reply_text, reply_citation_count, formatter_settings, format,
}

-- The text of the result has a control character, fits the bound, or is too long.
abbrev pub Formats : Unicode → ℕ → ChatResult → Type 0
Formats u bound r =
    ((normalize_formatted_reply_text u (reply_text r.outcome r) ≡ none)
      × (format u bound r ≡ err (FormatFault.channel_error ErrorCode.channel_malformed)))
    ⊎ ((t : Text) × (normalize_formatted_reply_text u (reply_text r.outcome r) ≡ some t)
        × (((length t ≤ bound)
              × (format u bound r
                  ≡ ok (record {
                    text = t;
                    citation_count = reply_citation_count r.outcome r;
                    overflowed = false;
                  })))
            ⊎ ((bound < length t)
                × (format u bound r
                    ≡ ok (record {
                      text = overflow_reply_text;
                      citation_count = 0;
                      overflowed = true;
                    })))))

normalized_again :
    (u : Unicode) (closed : ClosedUnderSubstring u) (x t : Text)
    → normalize_formatted_reply_text u x ≡ some t
    → normalize_formatted_reply_text u t ≡ some t
unfolding normalize_formatted_reply_text
normalized_again u closed x t h =
    let kept : normalized u x ≡ t = ground arith in
    let again : normalized u t ≡ t =
      subst (λ t'. normalized u t' ≡ t') kept (normalized-normalized u closed x) in
    ground (arith, again)

first_of : (a b c d : Bool) → (a && b && c && d) ≡ true → a ≡ true
first_of a b c d h = ground arith

few_cited :
    (o : ChatOutcome) (r : ChatResult) → result_route r ≡ true → reply_citation_count o r ≤ 6
unfolding result_route reply_citation_count
few_cited ChatOutcome.answer r h = leb→le (length r.citations) 6 (
    first_of (leb (length r.citations) 6) (nodup (citation_ids r.citations))
      (of_run r.retrieval_run_id r.citations) (route r.outcome r) h)
few_cited ChatOutcome.clarification r h = omega arith
few_cited ChatOutcome.refusal r h = omega arith

-- `format` of a result that meets its contract raises the error of a malformed text where the text of
-- the reply has a control character that is no line break, returns that text where it fits the bound,
-- and the fixed text where it does not; no other error is raised, where the constructor accepts the
-- bound, it is at most that of the contract, the normal form is closed under substrings and the fixed
-- text meets its contract.
pub format_every :
    (u : Unicode) (closed : ClosedUnderSubstring u) (bound : ℕ) (r : ChatResult)
    → formatter_settings bound ≡ ok bound
    → bound ≤ 1_994
    → normalize_formatted_reply_text u overflow_reply_text ≡ some overflow_reply_text
    → IsGrounded u r
    → Formats u bound r
unfolding format formatted_reply formatter_settings
format_every u closed bound r accepted small overflow g =
    let same = grounded_again u r g in
    let few = few_cited r.outcome r g.routed in
    elim (Option-cases (normalize_formatted_reply_text u (reply_text r.outcome r))) [
      | inl h ↦ inl (h, rw (format, same, h) refl)
      | inr (t, h) ↦
          let again = normalized_again u closed (reply_text r.outcome r) t h in
          elim (Bool-cases (leb (length t) bound)) [
            | inl fits ↦
                let within : leb (length t) 1_994 ≡ true = ground (arith, fits) in
                inr (
                  t,
                  h,
                  inl (
                    ground (arith, fits),
                    rw (format, same, h, fits) (ground (arith, again, few, within)),
                  ),
                )
            | inr long ↦ inr (
              t,
              h,
              inr (ground (arith, long), rw (format, same, h, long) (ground (arith, overflow))),
            )
          ]
    ]
