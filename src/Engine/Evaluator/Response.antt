-- ===== src/Engine/Evaluator/Response.antt =====
-- The response phases of the evaluator: buffering, headers, body. A transform is the argument `run`,
-- the registry's `apply` with the notes that it left; the codec of the charset is an argument too.
use pporlock.Base.{
  ℕ, Bool, true, false, not, ◌&&◌, ◌||◌, Option, none, some, List, [], ◌∷◌, ◌++◌, ◌==◌, text_eq,
  contains, any, leb, ltb, filter, map, if◌then◌else◌, is_some, or_else,
}
use pporlock.Base.Text.{Text, before, codes, has_part, lower, non_empty, strip}
use pporlock.Engine.Models.{
  Bytes, HeaderOp, NormalizedRequest, NormalizedResponse, ResponseMutation, body_size, charset_of,
  content_type, header, no_response_mutation, remove_op, text_of,
}
use pporlock.Engine.Provenance.{Action, Builder, NoteCode, Outcome, Phase, note, record_entry}
use pporlock.Engine.RuleSet.{
  CompiledRule, Transform, matching_response_body, matching_response_headers, strip_csp,
  transforms_of,
}
use pporlock.Engine.HeaderRules.{Side, apply_header_rules, csp_headers, state_from}
use pporlock.Engine.Cost.{decide_offload}
use pporlock.Engine.Modules.Registry.{ModuleRegistry, active}
use pporlock.Engine.Evaluator.{
  Evaluator, TimeBudget, has_response_hook, is_exhausted, merge_response, profile_of, run_hooks,
  spend,
}

-- `BufferingDecision.buffer`, and the builder
abbrev streamed_because : Text → Builder → Bool × Builder
streamed_because reason b =
    (false, note NoteCode.response_streamed none ((codes "reason", reason) ∷ []) b)

abbrev pub over : Option ℕ → ℕ → Bool
over none bound = false
over (some n) bound = ltb bound n

-- `(content_type or "").split(";", 1)[0].strip().lower()`
abbrev pub bare_media : Option Text → Text
bare_media content_type = lower (strip (before b';' (or_else content_type [])))

-- `decide_buffering`
unfoldable pub decide_buffering :
    Evaluator → Option Text → Option ℕ → Bool → Builder → Bool × Builder
unfolding note record_entry
decide_buffering e content_type content_length wanted b =
    if not wanted
    then streamed_because (codes "no_transform") b
    else if over content_length e.max_buffer_bytes
    then streamed_because (codes "size") b
    else if non_empty (bare_media content_type)
        && not (contains e.buffer_types (bare_media content_type))
    then streamed_because (codes "content_type") b
    else (true, record_entry Phase.buffering_decision [] [] Action.body Outcome.applied 0 b)

-- `enforce_observed_size`
unfoldable pub enforce_observed_size : Evaluator → NormalizedResponse → Builder → Bool × Builder
unfolding note body_size
enforce_observed_size e response b =
    if response.streamed || not (is_some response.body)
    then (false, b)
    else if leb (body_size response.body) e.max_buffer_bytes
    then (false, b)
    else (
      true,
      note NoteCode.response_streamed none ((codes "reason", codes "observed_size") ∷ []) b,
    )

-- `should_offload`
unfoldable pub should_offload : Evaluator → NormalizedRequest → NormalizedResponse → Bool
unfolding decide_offload transforms_of body_size matching_response_body has_response_hook
should_offload e request response =
    if any
      (λ r.
        any (λ t. decide_offload t.kind (body_size response.body) e.offload_threshold)
          (transforms_of r.params))
      (matching_response_body e.rule_set request response)
    then true
    else has_response_hook e && leb e.offload_threshold (body_size response.body)

-- `csp_headers_to_remove`
unfoldable pub csp_headers_to_remove : Bool → List Text
csp_headers_to_remove true = csp_headers
csp_headers_to_remove false = codes "content-security-policy" ∷ []

abbrev pub some_left : List Text → Bool
some_left [] = false
some_left (_ ∷ _) = true

-- one strip_csp of the loop of `evaluate_response_headers`
unfoldable pub strip_policy :
    (ℕ → ℕ)
    → NormalizedResponse
    → CompiledRule
    → Transform
    → List HeaderOp × Builder
    → List HeaderOp × Builder
unfolding csp_headers_to_remove header note record_entry
strip_policy took response rule t (ops, b) =
    if not (t.kind == strip_csp)
    then (ops, b)
    else (let removed = csp_headers_to_remove t.report_only in
        let present = some_left (filter (λ h. is_some (header h response.headers)) removed) in
        let noted =
          if present then note NoteCode.csp_modified (some rule.module_name) [] b else b in
        (
          ops ++ map remove_op removed,
          record_entry Phase.response_headers rule.module_name rule.rule_id Action.body
              (if present then Outcome.applied else Outcome.no_change) (took noted.seq) noted,
        ))

unfoldable pub strip_policies :
    (ℕ → ℕ)
    → NormalizedResponse
    → CompiledRule
    → List Transform
    → List HeaderOp × Builder
    → List HeaderOp × Builder
unfolding strip_policy
strip_policies took response rule [] s = s
strip_policies took response rule (t ∷ ts) s =
    strip_policies took response rule ts (strip_policy took response rule t s)

unfoldable pub strip_all :
    (ℕ → ℕ)
    → NormalizedResponse
    → List CompiledRule
    → List HeaderOp × Builder
    → List HeaderOp × Builder
unfolding strip_policies transforms_of
strip_all took response [] s = s
strip_all took response (rule ∷ rules) s =
    strip_all took response rules (strip_policies took response rule (transforms_of rule.params) s)

-- `evaluate_response_headers`
unfoldable pub evaluate_response_headers :
    Evaluator
    → (ℕ → ℕ)
    → NormalizedRequest
    → NormalizedResponse
    → Builder
    → ResponseMutation × Builder
unfolding matching_response_headers matching_response_body apply_header_rules state_from strip_all
evaluate_response_headers e took request response b =
    let edited =
      apply_header_rules took Side.response_side Phase.response_headers
        (matching_response_headers e.rule_set request response)
        (record { ops = []; state = state_from [] response.headers; builder = b }) in
    let done =
      strip_all took response (matching_response_body e.rule_set request response)
        (edited.ops, edited.builder) in
    (record no_response_mutation { ops = done.0 }, done.1)

-- a transform's run: the new text or an error, and the notes, where `none` is an unknown code
pub data Ran : Type 0 where
  ran : Text → List (Option NoteCode) → Ran
  broke : List (Option NoteCode) → Ran

-- `_drain_transform_notes`
unfoldable pub drain : Option Text → List (Option NoteCode) → Builder → Builder
unfolding note
drain name [] b = b
drain name (none ∷ codes) b = drain name codes (note NoteCode.module_error name [] b)
drain name (some code ∷ codes) b = drain name codes (note code name [] b)

-- what the loop over the body rules threads
pub record BodyRun : Type 0 where
  pub text : Text
  pub builder : Builder
  pub budget : Option TimeBudget

module _ (took : ℕ → ℕ) (run : Transform → Text → Ran) where
  abbrev body_entry : CompiledRule → Outcome → ℕ → Builder → Builder
  body_entry rule outcome time b =
      record_entry Phase.response_body rule.module_name rule.rule_id Action.body outcome time b

  abbrev pub after_run : CompiledRule → Ran → BodyRun → BodyRun
  after_run rule (Ran.ran text notes) s =
      let time = took s.builder.seq in
      record {
        text = text;
        builder = drain (some rule.module_name) notes (
            body_entry rule (if text == s.text then Outcome.no_change else Outcome.applied) time
              s.builder);
        budget = spend time s.budget;
      }
  after_run rule (Ran.broke notes) s =
      let time = took s.builder.seq in
      record {
        text = s.text;
        builder = drain (some rule.module_name) notes (
            body_entry rule Outcome.error time
              (note NoteCode.module_error (some rule.module_name) [] s.builder));
        budget = spend time s.budget;
      }

  -- the loop over a rule's transforms; strip_csp has been done
  unfoldable pub run_transforms : CompiledRule → List Transform → BodyRun → BodyRun
  unfolding drain note record_entry
  run_transforms rule [] s = s
  run_transforms rule (t ∷ ts) s =
      run_transforms rule ts (if t.kind == strip_csp then s else after_run rule (run t s.text) s)

  -- a rule of the loop of `evaluate_response_body`
  unfoldable pub run_body_rule : Bool → CompiledRule → BodyRun → BodyRun
  unfolding run_transforms note record_entry transforms_of
  run_body_rule streamed rule s =
      if streamed
      then record s { builder = body_entry rule Outcome.skipped_streamed 0 s.builder }
      else if is_exhausted s.budget
      then record s {
        builder =
            note NoteCode.transform_budget_exceeded (some rule.module_name) []
              (body_entry rule Outcome.skipped_budget 0 s.builder);
      }
      else run_transforms rule (transforms_of rule.params) s

  unfoldable pub run_body_rules : Bool → List CompiledRule → BodyRun → BodyRun
  unfolding run_body_rule
  run_body_rules streamed [] s = s
  run_body_rules streamed (rule ∷ rules) s =
      run_body_rules streamed rules (run_body_rule streamed rule s)

-- `_is_html`
abbrev pub is_html : Option Text → Bool
is_html none = false
is_html (some content_type) = has_part (lower content_type) (codes "html")

abbrev sri_strip : Transform
sri_strip = record { kind = codes "strip_integrity_attributes"; report_only = true; options = [] }

-- the implicit strip: `none` is its exception, which the evaluation does not catch
abbrev pub stripped : (ℕ → ℕ) → Text → Ran → BodyRun → Option BodyRun
stripped took original (Ran.broke notes) s = none
stripped took original (Ran.ran text notes) s = some (record s {
  text = text;
  builder = drain none notes (
      record_entry Phase.response_body [] [] Action.body
        (if text == original then Outcome.no_change else Outcome.applied) (took s.builder.seq)
        s.builder);
})

-- what the body phase leaves
pub record BodyOutcome : Type 0 where
  pub mutation : ResponseMutation
  pub builder : Builder
  pub budget : Option TimeBudget
  pub registry : Option ModuleRegistry

module _ (e : Evaluator) (took : ℕ → ℕ) (now : Text) (encode : Text → Text → Bytes)
    (request : NormalizedRequest) where
  abbrev with_hooks :
      Option ModuleRegistry → NormalizedResponse → ResponseMutation → BodyRun → BodyOutcome
  with_hooks none response m s = record {
    mutation = m;
    builder = s.builder;
    budget = s.budget;
    registry = none;
  }
  with_hooks (some r) response m s =
      let done =
        run_hooks merge_response took now Phase.response_body Action.body (λ m. m.on_response)
          request (some response) (active (profile_of e.rule_set) r)
          (record {
            registry = r;
            builder = s.builder;
            mutation = m;
            budget = s.budget;
            in_hooks = 0;
          }) in
      record {
        mutation = done.mutation;
        builder = done.builder;
        budget = done.budget;
        registry = some done.registry;
      }

  -- the hooks see the body as the transforms have left it
  abbrev hand_over : NormalizedResponse → Text → BodyRun → BodyOutcome
  hand_over response original s =
      if s.text == original
      then with_hooks e.registry response no_response_mutation s
      else (let body =
            encode (charset_of (header (codes "content-type") response.headers)) s.text in
          with_hooks e.registry (record response { body = some body })
            (record no_response_mutation { body = some body }) s)

  abbrev handed : NormalizedResponse → Text → Option BodyRun → Option BodyOutcome
  handed response original none = none
  handed response original (some s) = some (hand_over response original s)

  -- `evaluate_response_body`
  unfoldable pub evaluate_response_body :
      (Transform → Text → Ran)
      → (Text → Bytes → Option Text)
      → NormalizedResponse
      → Builder
      → Option TimeBudget
      → Option BodyOutcome
  unfolding text_of run_body_rules drain matching_response_body run_hooks profile_of active
      merge_response charset_of content_type
  evaluate_response_body run decode response b budget =
      let original = or_else (text_of decode response) [] in
      let done =
        run_body_rules took run response.streamed
          (matching_response_body e.rule_set request response)
          (record { text = original; builder = b; budget = budget }) in
      handed response original (
        if not (done.text == original) && is_html (content_type response.headers)
        then stripped took original (run sri_strip done.text) done
        else some done)
