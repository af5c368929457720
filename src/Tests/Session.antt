-- ===== src/Tests/Session.antt =====
-- A session of a few flows: a run of the writer, its table, its end and its pages.
use pporlock.Base.{
  ℕ, ◌+◌, ◌≡◌, refl, Bool, true, false, Option, none, some, List, [], ◌∷◌, length, map, filter,
  ◌++◌, ◌≢◌, All, text_eq, nat_eq, arith, subst, Bool-cases, inl, inr,
}
use pporlock.Base.Text.{Text, codes, has_part, lower}
use pporlock.Engine.Models.{Bytes, WebSocketMessage, WsDirection, WsOpcode}
use pporlock.Capture.Records.{FlowKind, FlowRecord, new_record}
use pporlock.Capture.Redact.{Json, Members, walk}
use pporlock.Capture.Redact.Whole.{redact_record}
use pporlock.Capture.Redact.Hidden.{IsRedacted, redact_record-IsRedacted}
use pporlock.Capture.Session.Rows.{Encoded, redact_and_encode}
use pporlock.Capture.Session.RoundTrip.{restored}
use pporlock.Capture.Session.Inserted.{Ascending, Elsewhere, is_stale}
use pporlock.Capture.Session.Stored.{get-insert_all}
use pporlock.Capture.Session.Writer.{
  Coder, Database, all_messages, insert_all, insert_messages, encode_with, Event, Machine, Stage,
  new_writer, run, start,
}
use pporlock.Capture.Session.Accounts.{all_offers, history, load, run-load, waiting}
use pporlock.Capture.Session.Bounds.{IsBounded, run-IsBounded}
use pporlock.Capture.Session.Table.{IsTable, Rising, run-IsTable, start-IsTable}
use pporlock.Capture.Session.Drain.{Stopping, left, thread}
use pporlock.Capture.Session.Settled.{stop_finishes}
use pporlock.Capture.Session.Reader.{get, read_row}
use pporlock.Capture.Session.Pages.{pages, session_pages_complete}
use pporlock.Tests.Data.{page, script}
use pporlock.Tests.Redact.{marked, is_marked, is_marked-marked, cfg}

-- the object whose token is the body
abbrev token_of : Bytes → Json
token_of body = Json.object (Members.member (codes "token") (Json.string body) Members.close)

abbrev loads : Bytes → Option Json
loads [] = none
loads (c ∷ body) = some (token_of (c ∷ body))

abbrev dumps : Json → Bytes
dumps (Json.object (Members.member key (Json.string text) rest)) = text
dumps _ = []

abbrev masked_token : Json → Json
masked_token j = (walk marked is_marked cfg.json_key_patterns false j).0

read_token :
    (c : ℕ) (body : Bytes)
    → loads (dumps (masked_token (token_of (c ∷ body)))) ≡ some (masked_token (token_of (c ∷ body)))
unfolding walk lower has_part
read_token c body = elim (Bool-cases (is_marked (c ∷ body))) [
  | inl b ↦ rw b refl
  | inr b ↦ rw b refl
]

read_back :
    (body : Bytes) (j : Json)
    → loads body ≡ some j
    → loads (dumps (masked_token j)) ≡ some (masked_token j)
read_back [] j e = absurd (cc e)
read_back (c ∷ body) j e =
    let q : token_of (c ∷ body) ≡ j = cc e in
    subst (λ j. loads (dumps (masked_token j)) ≡ some (masked_token j)) q (read_token c body)

abbrev blank : Bytes → Bool
blank body = false

abbrev same_text : Text → Text
same_text t = t

abbrev recorded : FlowRecord
recorded = record (new_record (codes "a") FlowKind.http (codes "t")) {
  request = some page;
  response = some script;
}

redact_record-IsRedacted_example :
    IsRedacted marked is_marked is_marked-marked same_text loads dumps blank cfg read_back
      (redact_record marked is_marked same_text loads dumps blank cfg recorded)
redact_record-IsRedacted_example =
    redact_record-IsRedacted marked is_marked is_marked-marked same_text loads dumps blank cfg
      read_back refl recorded

abbrev coder : Coder
coder = record {
  redact = redact_record marked is_marked same_text loads dumps blank cfg;
  utf8_decode = λ b. some b;
  utf8_encode = λ t. t;
  b64_encode = λ b. b;
  b64_decode = λ t. some t;
  max_body_bytes = 2;
}

abbrev flow_of : Text → FlowRecord
flow_of id = record recorded { flow_id = id }

-- two flows are taken, one twice; a third comes after the request to stop
abbrev events : List Event
events =
    Event.enqueued (flow_of (codes "a"))
    ∷ Event.enqueued (flow_of (codes "b"))
    ∷ Event.take_turn
    ∷ Event.enqueued (flow_of (codes "a"))
    ∷ Event.take_turn
    ∷ Event.stop_asked
    ∷ Event.interval_over
    ∷ Event.encode_turn
    ∷ Event.enqueued (flow_of (codes "c"))
    ∷ []

abbrev begun : Machine
begun = start (new_writer 5000 2 2)

after_events : (run coder events begun).writer.dropped ≡ 1
unfolding run start new_writer lower text_eq has_part redact_record
after_events = refl

run-load_example :
    all_offers events + load begun
    ≡ load (run coder events begun) + length (history coder events begun)
run-load_example = run-load coder events begun

begun-IsBounded : IsBounded begun
unfolding start new_writer
begun-IsBounded = record {
  writer = record {
    queue = λ _. omega arith;
    open_below = λ _ _. omega arith;
    full_above = λ h. absurd (cc h);
  };
  batch = omega arith;
}

run-IsBounded_example : IsBounded (run coder events begun)
run-IsBounded_example = run-IsBounded coder events begun begun-IsBounded

run-IsTable_example : IsTable coder (run coder events begun)
run-IsTable_example = run-IsTable coder events begun (start-IsTable coder (new_writer 5000 2 2))

-- the writer as the thread goes on after the events
abbrev stopping : Machine
stopping = record begun {
  stage = Stage.flushing;
  batch = flow_of (codes "b") ∷ flow_of (codes "b") ∷ [];
  writer = record begun.writer {
    batch_size = 2;
    queue = some (flow_of (codes "a")) ∷ none ∷ some (flow_of (codes "c")) ∷ [];
  };
}

stopping-Stopping : Stopping (some (flow_of (codes "c")) ∷ []) stopping
unfolding start
stopping-Stopping = (tt, refl)

stop_finishes_example :
    ((run coder (thread coder (left stopping) stopping) stopping).stage ≡ Stage.finished)
    × ((run coder (thread coder (left stopping) stopping) stopping).writer.queue
        ≡ some (flow_of (codes "c")) ∷ [])
    × (load stopping
        ≡ (run coder (thread coder (left stopping) stopping) stopping).writer.dropped
          + waiting (some (flow_of (codes "c")) ∷ [])
          + length (history coder (thread coder (left stopping) stopping) stopping))
stop_finishes_example =
    stop_finishes coder (some (flow_of (codes "c")) ∷ []) stopping stopping-Stopping (omega arith)
      tt

exact_text :
    (body : Bytes) (text : Text)
    → coder.utf8_decode body ≡ some text
    → coder.utf8_encode text ≡ body
exact_text body text e = cc e

-- a socket with two frames, of which the first was written before
abbrev message : ℕ → WebSocketMessage
message n = record {
  flow_id = codes "a";
  index = n;
  timestamp = codes "t";
  direction = WsDirection.inbound;
  opcode = WsOpcode.text;
  payload = 1 ∷ 2 ∷ 3 ∷ [];
  truncated = false;
}

abbrev socket : List WebSocketMessage → FlowRecord
socket frames = record (new_record (codes "a") FlowKind.websocket (codes "t")) {
  ws_messages = frames;
}

abbrev two_frames : FlowRecord
two_frames = socket (message 0 ∷ message 1 ∷ [])

abbrev first_written : List Encoded
first_written = encode_with coder 1 (socket (message 0 ∷ [])) ∷ []

abbrev next_written : List Encoded
next_written = encode_with coder 3 (flow_of (codes "b")) ∷ []

abbrev nothing : Database
nothing = record { flows = []; messages = []; notes = [] }

indices_rise :
    Ascending (map (λ (m : WebSocketMessage). m.index) (coder.redact two_frames).ws_messages)
unfolding redact_record lower has_part
indices_rise = ((omega arith, tt), (tt, tt))

written-Elsewhere : All (Elsewhere (coder.redact two_frames).flow_id) next_written
unfolding redact_record redact_and_encode text_eq lower has_part
written-Elsewhere = ((refl, tt), tt)

none_stale :
    filter
      (is_stale (coder.redact two_frames).flow_id (encode_with coder 2 two_frames).ws)
      (insert_messages (all_messages first_written) nothing.messages)
    ≡ []
unfolding redact_record redact_and_encode insert_messages all_messages text_eq lower has_part
none_stale = refl

-- where a frame was trimmed from the record, its row is still read
abbrev trimmed_record : FlowRecord
trimmed_record = socket (message 1 ∷ [])

trimmed_frame_stays :
    filter
      (is_stale (coder.redact trimmed_record).flow_id (encode_with coder 2 trimmed_record).ws)
      (insert_messages (all_messages first_written) nothing.messages)
    ≢ []
unfolding redact_record redact_and_encode insert_messages all_messages text_eq lower has_part
trimmed_frame_stays h = absurd (cc h)

get-insert_all_example :
    get coder
      (insert_all (first_written ++ encode_with coder 2 two_frames ∷ next_written) nothing)
      (coder.redact two_frames).flow_id
    ≡ some (
        restored coder.utf8_decode coder.utf8_encode coder.b64_encode coder.b64_decode exact_text
          (λ b. refl)
          2
          (coder.redact two_frames))
get-insert_all_example =
    get-insert_all coder exact_text (λ b. refl) 2 two_frames first_written next_written nothing
      indices_rise written-Elsewhere none_stale

abbrev str : ℕ → Text
str n = n ∷ []

abbrev int : Text → Option ℕ
int [] = none
int (n ∷ _) = some n

abbrev stored : Database
stored = record {
  flows =
      (encode_with coder 1 (flow_of (codes "b"))).flow
      ∷ (encode_with coder 3 (flow_of (codes "a"))).flow
      ∷ [];
  messages = [];
  notes = [];
}

int-str : (n : ℕ) → int (str n) ≡ some n
int-str n = refl

stored-Rising : Rising 0 3 stored.flows
unfolding redact_and_encode
stored-Rising = omega arith

session_pages_complete_example :
    pages coder stored int str int-str (λ r. true) 1 3 none
    ≡ map (read_row coder stored) (filter (λ row. true) stored.flows)
session_pages_complete_example =
    session_pages_complete coder stored int str int-str (λ r. true) 1 3 3 stored-Rising
      (omega arith)
