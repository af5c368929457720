-- ===== src/Lib.antt =====
-- pporlock: the daemon of a debugging proxy, modelled and verified.
--
-- mitmproxy hands each flow to the daemon. The adapter (daemon/src/pporlock/addon) normalizes it,
-- asks the engine (daemon/src/pporlock/engine) what the rules and the modules make of it, and applies
-- the mutation that comes back; capture (daemon/src/pporlock/capture) records the flow with its
-- provenance; the control server (daemon/src/pporlock/control) tells clients of it. The paths below
-- are those of daemon/src/pporlock.
--
-- Base          the shared names: native numbers, Boolean tests, lists, Python's equality as an
--               instance, integers, texts as code points, dicts as association lists, the
--               values of YAML and JSON, stable sort
-- Engine.Models           engine/models.py: requests, responses, frames, mutations
-- Engine.Provenance       engine/provenance.py: entries and notes, and ProvenanceBuilder as a value
-- Engine.Matcher          engine/matcher.py: CompiledMatcher; Compile holds compile_matcher, Compiled
--                         the reading of a match block that Exact proves it to agree with
-- Engine.RuleSet          engine/ruleset.py: RuleSet.__init__ is make_ruleset; Order and First prove
--                         the order of rules and the first match; Compile holds compile_rule and
--                         from_rules, Sound and Each what is proved of them
-- Engine.HeaderRules      engine/evaluator.py: _HeaderState and _apply_header_rule
-- Engine.Evaluator        engine/evaluator.py: TimeBudget, _run_python_hooks and _merge_mutation;
--                         Request and Response hold the phases, Budget, Charges, Refusals, Bodies and
--                         Buffering what is proved of them
-- Engine.Stubs            engine/stubs.py: resolve and auto_for
-- Engine.Cost             engine/cost.py: decide_offload and ModuleCostIndex.record
-- Engine.Exclusions       engine/exclusions.py: ExclusionList
-- Engine.Modules.Registry engine/modules/registry.py: enablement, quarantine and the active modules
-- Engine.Modules.Store    engine/modules/state.py: ModuleStateStore, with the file beside it
-- Engine.Modules.Settings engine/modules/settings.py: Parse holds parse_settings, Config
--                         coerce_config and effective_config, Form ModuleRegistry.set_config of
--                         engine/modules/registry.py; the others what is proved of them
-- Addon.Apply             addon/apply.py, over an interface to mitmproxy's Headers; Refines and Honest
--                         relate it to the evaluator's header state
-- Capture.Records         capture/records.py: FlowRecord
-- Capture.Ring            capture/ring.py: RingBuffer, its bounds and its pages
-- Capture.Sink            capture/sink.py: RingSink, the recording of flows and of frames
-- Capture.Attribution     capture/attribution.py: AttributionIndex
-- Capture.Redact          capture/redact.py: the redaction of headers, queries and JSON bodies; Whole
--                         holds that of messages and records, Hidden what is proved of it
-- Capture.Session         capture/session.py: Rows holds what is written of a flow and read back,
--                         Writer the writer's thread beside the event loop as a step relation on
--                         events, Reader the pages; the others what is proved of them
-- Control.Events          control/events.py: Subscriber and EventHub
-- Control.Auth            control/auth.py: OriginPolicy, PairingWindow, bearer_token, require_client
-- Control.Audit           control/audit.py: AuditLog
-- Tests                   runs at small inputs
--
-- An object is a record and a method a function from the record to the record, with its result. An
-- exception is a value: none, a constructor of a result, or an error beside the state. A dict is an
-- association list in the order of insertion. Numbers that can fall below zero (the byte counter of
-- the ring) are integers; durations and times are whole units of a clock that is read through an
-- argument. The case mappings of texts are those of ASCII.
--
-- Code that is not the repository's is an argument: the headers of mitmproxy are an interface whose
-- laws are its documented behaviour, a regular expression is the test that its search is, what
-- `re.compile`, `fnmatchcase`, `int` and `str` make of a text or of a value are functions, as a hook
-- and a transform are, the file system gives an asset or nothing, a codec decodes or fails.
-- Loops are structural recursion on the list they run over. The pages of the ring and of the audit
-- log, and those of a session, are followed on fuel: of a ring at most one call more than there are
-- records, of the audit log as many calls as entries where a page holds any. A session's thread is
-- followed on fuel too, by a measure of what is left to do.
--
-- Not modelled: serialization and messages for people, YAML, the inside of SQLite, threads and
-- locks, the HTTP routes of the control server, the command line, the loading of modules from disk,
-- the HTML transforms, and the reading of a compiled rule's parameters, which are a record where the
-- engine uses them. Nor yet: flow filters, unmasking, profiles.
pub mod Base
pub mod Engine
pub mod Addon
pub mod Capture
pub mod Control
pub mod Tests
