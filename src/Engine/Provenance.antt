-- ===== src/Engine/Provenance.antt =====
-- Provenance (engine/provenance.py): what each rule did to a flow, and what did not happen.
-- The messages for people are not modelled; the fields of `detail` that other code reads are.
use pporlock.Base.{
  ℕ, ◌+◌, Bool, true, false, not, ◌&&◌, ◌||◌, Option, none, some, List, [], ◌∷◌, ◌++◌, text_eq, any,
  contains, if◌then◌else◌,
}
use pporlock.Base.Text.{Text}
use pporlock.Base.Dict.{Dict}

pub data Phase : Type 0 where
  clienthello request_short_circuit request_headers buffering_decision : Phase
  response_headers response_body websocket : Phase

pub data Action : Type 0 where
  passthrough block map_local redirect headers body : Action

pub data Outcome : Type 0 where
  applied no_change skipped_streamed skipped_budget skipped_short_circuit : Outcome
  skipped_disabled error : Outcome

pub data Severity : Type 0 where
  info warning error : Severity

pub data NoteCode : Type 0 where
  response_streamed transform_budget_exceeded module_quarantined map_local_missing : NoteCode
  csp_modified sri_stripped script_injected dev_toggle_active body_truncated : NoteCode
  module_error passthrough_excluded attribution_missing module_deprecation : NoteCode

-- `NOTE_SEVERITY`
unfoldable pub note_severity : NoteCode → Severity
note_severity NoteCode.response_streamed = Severity.info
note_severity NoteCode.transform_budget_exceeded = Severity.warning
note_severity NoteCode.module_quarantined = Severity.error
note_severity NoteCode.map_local_missing = Severity.error
note_severity NoteCode.csp_modified = Severity.warning
note_severity NoteCode.sri_stripped = Severity.warning
note_severity NoteCode.script_injected = Severity.warning
note_severity NoteCode.dev_toggle_active = Severity.warning
note_severity NoteCode.body_truncated = Severity.info
note_severity NoteCode.module_error = Severity.error
note_severity NoteCode.passthrough_excluded = Severity.info
note_severity NoteCode.attribution_missing = Severity.info
note_severity NoteCode.module_deprecation = Severity.warning

pub record ProvenanceEntry : Type 0 where
  pub seq : ℕ
  pub phase : Phase
  pub module_name : Text
  pub rule_id : Text
  pub action : Action
  pub outcome : Outcome
  -- time units of the clock that the evaluator reads
  pub duration : ℕ

pub record ProvenanceNote : Type 0 where
  pub code : NoteCode
  pub severity : Severity
  pub module_name : Option Text
  pub detail : Dict Text Text

pub record Provenance : Type 0 where
  pub profile : Text
  pub evaluated_modules : List Text
  pub entries : List ProvenanceEntry
  pub notes : List ProvenanceNote
  pub total : ℕ
  pub short_circuited_by : Option Text

abbrev pub is_applied : Outcome → Bool
is_applied Outcome.applied = true
is_applied _ = false

abbrev pub is_error : Outcome → Bool
is_error Outcome.error = true
is_error _ = false

-- the loop of `modules_fired`
unfoldable pub modules_fired_from : List Text → List ProvenanceEntry → List Text
modules_fired_from seen [] = seen
modules_fired_from seen (entry ∷ entries) =
    modules_fired_from
      (if is_applied entry.outcome && not (contains seen entry.module_name)
        then seen ++ entry.module_name ∷ []
        else seen)
      entries

unfoldable pub modules_fired : Provenance → List Text
unfolding modules_fired_from
modules_fired p = modules_fired_from [] p.entries

abbrev pub rank : Severity → ℕ
rank Severity.info = 0
rank Severity.warning = 1
rank Severity.error = 2

abbrev pub worse : Severity → Severity → Severity
worse Severity.info t = t
worse Severity.warning Severity.error = Severity.error
worse Severity.warning t = Severity.warning
worse Severity.error t = Severity.error

unfoldable pub max_severity_from : Severity → List ProvenanceNote → Severity
max_severity_from s [] = s
max_severity_from s (n ∷ notes) = max_severity_from (worse s n.severity) notes

-- `max_severity`
unfoldable pub max_severity : Provenance → Option Severity
unfolding max_severity_from
max_severity p = elim p.notes [ [] ↦ none | n ∷ notes ↦ some (max_severity_from n.severity notes) ]

abbrev pub is_failure : Severity → Bool
is_failure Severity.error = true
is_failure _ = false

-- `errored`
unfoldable pub errored : Provenance → Bool
errored p = any (λ e. is_error e.outcome) p.entries || any (λ n. is_failure n.severity) p.notes

-- `ProvenanceBuilder`
pub record Builder : Type 0 where
  pub profile : Text
  pub modules : List Text
  pub entries : List ProvenanceEntry
  pub notes : List ProvenanceNote
  pub seq : ℕ
  pub short_circuited_by : Option Text

unfoldable pub new_builder : Text → List Text → Builder
new_builder profile modules = record {
  profile = profile;
  modules = modules;
  entries = [];
  notes = [];
  seq = 0;
  short_circuited_by = none;
}

-- `ProvenanceBuilder.record`
unfoldable pub record_entry : Phase → Text → Text → Action → Outcome → ℕ → Builder → Builder
record_entry phase module_name rule_id action outcome duration b = record b {
  entries =
      b.entries
      ++ (record {
        seq = b.seq;
        phase = phase;
        module_name = module_name;
        rule_id = rule_id;
        action = action;
        outcome = outcome;
        duration = duration;
      })
        ∷ [];
  seq = b.seq + 1;
}

-- `ProvenanceBuilder.note` with its default severity
unfoldable pub note : NoteCode → Option Text → Dict Text Text → Builder → Builder
unfolding note_severity
note code module_name detail b = record b {
  notes =
      b.notes
      ++ (record {
        code = code;
        severity = note_severity code;
        module_name = module_name;
        detail = detail;
      })
        ∷ [];
}

-- `ProvenanceBuilder.note` with a severity of its own
unfoldable pub note_as : Severity → NoteCode → Option Text → Builder → Builder
note_as severity code module_name b = record b {
  notes =
      b.notes
      ++ (record { code = code; severity = severity; module_name = module_name; detail = [] }) ∷ [];
}

-- `ProvenanceBuilder.short_circuit`
unfoldable pub short_circuit : Text → Builder → Builder
short_circuit rule_id b = record b { short_circuited_by = some rule_id }

-- `ProvenanceBuilder.set_modules`
unfoldable pub set_modules : List Text → Builder → Builder
set_modules modules b = record b { modules = modules }

-- `ProvenanceBuilder.build`
unfoldable pub build : ℕ → Builder → Provenance
build total b = record {
  profile = b.profile;
  evaluated_modules = b.modules;
  entries = b.entries;
  notes = b.notes;
  total = total;
  short_circuited_by = b.short_circuited_by;
}
