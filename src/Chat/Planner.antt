-- ===== src/Chat/Planner.antt =====
-- chat/planner_models.py, and `_plan_retrieval` of chat/service.py with what it calls: the optional
-- expansion of a retrieval query by a plan. The planner and the resolver of anchors are ports.
use legal_chatbot_ueb_demo_s.Prelude.{
  ℕ, Bool, true, false, not, ◌&&◌, ◌||◌, Option, none, some, List, [], ◌∷◌, ◌++◌, ltb, leb,
  if◌then◌else◌, length, all, Text, codes, Result, ok, err, ◌>>=◌, ◌>>◌, require,
}
use legal_chatbot_ueb_demo_s.Unicode.{Unicode, is_blank, contains_char}
use legal_chatbot_ueb_demo_s.Conversation.Store.{Fault, validation_error}
use legal_chatbot_ueb_demo_s.Conversation.Snapshots.{nodup}
use legal_chatbot_ueb_demo_s.Conversation.Service.{Reply, heard}
use legal_chatbot_ueb_demo_s.Conversation.Policy.Contracts.{TemporalScope}
use legal_chatbot_ueb_demo_s.Conversation.Policy.Labels.{join}
use legal_chatbot_ueb_demo_s.Chat.Words.{
  Patterns, same_text, contains_text, any, normalize_planner_text, distinct_texts,
}

-- `ChatSettings`, with the fields that the service reads.
pub record ChatSettings : Type 0 where
  pub question_max_chars : ℕ
  pub max_citations : ℕ
  pub excerpt_max_chars : ℕ
  pub total_evidence_max_chars : ℕ
  pub prompt_max_chars : ℕ
  pub conversation_context_max_chars : ℕ
  pub max_output_tokens : ℕ
  pub answer_max_chars : ℕ
  pub retrieval_planner_enabled : Bool
  pub retrieval_planner_max_input_chars : ℕ
  pub retrieval_planner_max_expansion_terms : ℕ
  pub retrieval_planner_max_phrases : ℕ
  pub retrieval_planner_max_query_count : ℕ

pub record QueryPlannerPlan : Type 0 where
  pub anchor_mentions : List Text
  pub key_phrases : List Text
  pub expansion_terms : List Text

pub data QueryPlannerOutcome : Type 0 where
  disabled skipped_temporal skipped_input provider_failure : QueryPlannerOutcome
  invalid_output unresolved_anchor no_expansion planned : QueryPlannerOutcome

pub record QueryPlannerResult : Type 0 where
  pub outcome : QueryPlannerOutcome
  pub plan : Option QueryPlannerPlan

abbrev is_planned : QueryPlannerOutcome → Bool
is_planned QueryPlannerOutcome.planned = true
is_planned _ = false

-- What `_plan_retrieval` returns, without its start for the log.
pub record Expansion : Type 0 where
  pub outcome : QueryPlannerOutcome
  pub query : Option Text
  pub document_ids : List ℕ
  pub called : Bool

abbrev unexpanded : QueryPlannerOutcome → Bool → Expansion
unexpanded outcome called = record {
  outcome = outcome;
  query = none;
  document_ids = [];
  called = called;
}

module _ (u : Unicode) (p : Patterns) where
  abbrev no_control : Text → Bool
  no_control t = all (λ c. not (u.is_control c)) t

  -- `_is_safe_item`
  unfoldable pub is_safe_item : Text → Bool
  is_safe_item value =
      not (is_blank value)
      && leb (length value) 160
      && no_control value
      && not (p.unsafe_item value)

  -- `normalize_items`
  unfoldable pub normalize_items : List Text → Result Fault (List Text)
  unfolding is_safe_item normalize_planner_text
  normalize_items [] = ok []
  normalize_items (item ∷ items) = do
    require (no_control item) validation_error
    let t = normalize_planner_text u item
    require (is_safe_item t) validation_error
    rest ← normalize_items items
    ok (t ∷ rest)

  abbrev folded : List Text → List Text
  folded [] = []
  folded (t ∷ ts) = p.casefold t ∷ folded ts

  -- `QueryPlannerPlan`
  unfoldable pub query_planner_plan : QueryPlannerPlan → Result Fault QueryPlannerPlan
  unfolding normalize_items
  query_planner_plan plan = do
    anchors ← normalize_items plan.anchor_mentions
    phrases ← normalize_items plan.key_phrases
    terms ← normalize_items plan.expansion_terms
    require (leb (length anchors) 2 && leb (length phrases) 2 && leb (length terms) 4)
        validation_error
    require (distinct_texts (folded (anchors ++ (phrases ++ terms)))) validation_error
    ok (record { anchor_mentions = anchors; key_phrases = phrases; expansion_terms = terms })

  -- `has_protected_identity_drift`
  unfoldable pub has_protected_identity_drift : Text → Text → Bool
  unfolding normalize_planner_text contains_text
  has_protected_identity_drift value question =
      any
        (λ m. not (
          contains_text (p.casefold (normalize_planner_text u m))
            (p.casefold (normalize_planner_text u question))))
        (p.protected_identities (normalize_planner_text u value))

  -- `validate_query_plan`
  unfoldable pub validate_query_plan :
      QueryPlannerPlan → Text → ℕ → ℕ → Result Fault QueryPlannerPlan
  unfolding normalize_planner_text query_planner_plan has_protected_identity_drift contains_text
  validate_query_plan plan question max_phrases max_expansion_terms = do
    let q = p.casefold (normalize_planner_text u question)
    require (not (is_blank q) && leb (length q) 900) validation_error
    v ← query_planner_plan plan
    require
        (leb (length v.key_phrases) max_phrases
          && leb (length v.expansion_terms) max_expansion_terms
          && all (λ a. contains_text (p.casefold a) q) v.anchor_mentions
          && not (
              any (λ i. has_protected_identity_drift i q)
                (v.anchor_mentions ++ (v.key_phrases ++ v.expansion_terms))))
        validation_error
    ok v

  -- `QueryPlannerResult`
  unfoldable pub query_planner_result : QueryPlannerResult → Result Fault QueryPlannerResult
  unfolding query_planner_plan
  query_planner_result r = elim r.plan [
    | none ↦ do require (not (is_planned r.outcome)) validation_error; ok r
    | some plan ↦ do
      v ← query_planner_plan plan
      require (is_planned r.outcome) validation_error
      ok (record { outcome = r.outcome; plan = some v })
  ]

  abbrev quoted_all : List Text → List Text
  quoted_all [] = []
  quoted_all (t ∷ ts) = (codes "\"" ++ (t ++ codes "\"")) ∷ quoted_all ts

  abbrev breaks_quotes : Text → Bool
  breaks_quotes t = contains_char b'"' t || contains_char b'\\' t

  abbrev no_parts : List Text → Bool
  no_parts [] = true
  no_parts (t ∷ ts) = false

  -- `_build_expansion_query`
  unfoldable pub build_expansion_query : ChatSettings → QueryPlannerPlan → Text → Option Text
  unfolding normalize_planner_text has_protected_identity_drift join
  build_expansion_query s plan question =
      let parts = plan.key_phrases ++ plan.expansion_terms in
      let plain = normalize_planner_text u (join (codes " ") parts) in
      let original = normalize_planner_text u question in
      if ltb s.retrieval_planner_max_query_count 2
      then none
      else if no_parts parts || any breaks_quotes parts
      then none
      else if is_blank plain
          || same_text (p.casefold plain) (p.casefold original)
          || has_protected_identity_drift plain original
      then none
      else some (join (codes " OR ") (quoted_all parts))

  module _ (s : ChatSettings) (planner : Option (Text → Reply QueryPlannerResult))
      (anchors : Option (List Text → Reply (Option (List ℕ)))) where
    abbrev resolved : Option (List ℕ) → Option (List ℕ)
    resolved none = none
    resolved (some []) = none
    resolved (some (d ∷ ds)) = if nodup (d ∷ ds) then some (d ∷ ds) else none

    -- `_resolve_anchor_documents`
    unfoldable pub resolve_anchor_documents : QueryPlannerPlan → Result Fault (Option (List ℕ))
    resolve_anchor_documents plan = elim (no_parts plan.anchor_mentions) [
      | true ↦ ok (some [])
      | false ↦ elim anchors [
        | none ↦ ok none
        | some resolver ↦ do
          documents ← heard (resolver plan.anchor_mentions)
          ok (resolved documents)
      ]
    ]

    abbrev expanded : Option Text → List ℕ → Expansion
    expanded none documents = unexpanded QueryPlannerOutcome.no_expansion true
    expanded (some query) documents = record {
      outcome = QueryPlannerOutcome.planned;
      query = some query;
      document_ids = documents;
      called = true;
    }

    abbrev resolved_expansion : Option (List ℕ) → Option Text → Expansion
    resolved_expansion none query = unexpanded QueryPlannerOutcome.unresolved_anchor true
    resolved_expansion (some documents) query = expanded query documents

    -- What the `try` of `_plan_retrieval` does once the planner has answered.
    unfoldable pub expand : QueryPlannerResult → Text → Result Fault Expansion
    unfolding query_planner_result validate_query_plan resolve_anchor_documents
        build_expansion_query
    expand value question = do
      answer ← query_planner_result value
      elim answer.plan [
        | none ↦ ok (unexpanded answer.outcome true)
        | some plan ↦ do
          v ←
              validate_query_plan plan question s.retrieval_planner_max_phrases
                s.retrieval_planner_max_expansion_terms
          documents ← resolve_anchor_documents v
          ok (resolved_expansion documents (build_expansion_query s v question))
      ]

    abbrev or_invalid : Result Fault Expansion → Expansion
    or_invalid (ok e) = e
    or_invalid (err f) = unexpanded QueryPlannerOutcome.invalid_output true

    unfoldable pub asked_plan : (Text → Reply QueryPlannerResult) → Text → Expansion
    unfolding expand
    asked_plan ask question = or_invalid (heard (ask question) >>= λ value. expand value question)

    unfoldable pub plan_within : Text → Expansion
    unfolding asked_plan normalize_planner_text
    plan_within question = elim planner [
      | none ↦ unexpanded QueryPlannerOutcome.disabled false
      | some ask ↦
          if not s.retrieval_planner_enabled
          then unexpanded QueryPlannerOutcome.disabled false
          else if ltb s.retrieval_planner_max_input_chars
                (length (normalize_planner_text u question))
              || ltb s.retrieval_planner_max_query_count 2
          then unexpanded QueryPlannerOutcome.skipped_input false
          else asked_plan ask question
    ]

    -- `_plan_retrieval`
    unfoldable pub plan_retrieval : TemporalScope → Text → Expansion
    unfolding plan_within
    plan_retrieval TemporalScope.no_scope question = plan_within question
    plan_retrieval _ question = unexpanded QueryPlannerOutcome.skipped_temporal false
