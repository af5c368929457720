-- ===== src/Capture/Session/Writer.antt =====
-- The writer of a session (capture/session.py, SessionWriter) as steps. The event loop enqueues and
-- asks for a stop; the thread takes a record from the queue, ends its collection when the interval is
-- over, encodes a record of its batch, and commits. Any order of these is a run; a step that cannot be
-- made leaves all as it is. `Machine` is the writer with the locals of its thread and the database.
use pporlock.Base.{
  ℕ, ◌+◌, Bool, true, false, not, ◌&&◌, Option, none, some, List, [], ◌∷◌, ◌++◌, ◌==◌, text_eq,
  nat_eq, map, length, contains, filter, ltb, leb, eqb, if◌then◌else◌,
}
use pporlock.Base.Text.{Text}
use pporlock.Engine.Models.{Bytes}
use pporlock.Capture.Records.{FlowRecord}
use pporlock.Capture.Session.Rows.{Encoded, FlowRow, MessageRow, NoteRow, redact_and_encode}

-- the tables of the file
pub record Database : Type 0 where
  pub flows : List FlowRow
  pub messages : List MessageRow
  pub notes : List NoteRow

-- the state of `SessionWriter` that changes, and its bounds; none in the queue is the sentinel
pub record SessionWriter : Type 0 where
  pub max_bytes : ℕ
  pub batch_size : ℕ
  pub queue_max : ℕ
  pub queue : List (Option FlowRecord)
  pub dropped : ℕ
  pub written : ℕ
  pub seq : ℕ
  pub bytes_written : ℕ
  pub capped : Bool

pub data Stage : Type 0 where
  collecting flushing finished : Stage

pub record Machine : Type 0 where
  pub writer : SessionWriter
  pub stage : Stage
  pub batch : List FlowRecord
  pub done : Bool
  pub encoded : List Encoded
  pub database : Database

-- what `_redact_and_encode` uses: the redactor and the codecs
pub record Coder : Type 0 where
  pub redact : FlowRecord → FlowRecord
  pub utf8_decode : Bytes → Option Text
  pub utf8_encode : Text → Bytes
  pub b64_encode : Bytes → Text
  pub b64_decode : Text → Option Bytes
  pub max_body_bytes : ℕ

abbrev pub encode_with : Coder → ℕ → FlowRecord → Encoded
encode_with c =
    redact_and_encode c.utf8_decode c.utf8_encode c.b64_encode c.b64_decode c.max_body_bytes
      c.redact

-- `SessionWriter.__init__`
unfoldable pub new_writer : ℕ → ℕ → ℕ → SessionWriter
new_writer max_bytes batch_size queue_max = record {
  max_bytes = max_bytes;
  batch_size = batch_size;
  queue_max = queue_max;
  queue = [];
  dropped = 0;
  written = 0;
  seq = 0;
  bytes_written = 0;
  capped = false;
}

-- `start`: an empty database and a thread that begins to collect
unfoldable pub start : SessionWriter → Machine
start w = record {
  writer = w;
  stage = Stage.collecting;
  batch = [];
  done = false;
  encoded = [];
  database = record { flows = []; messages = []; notes = [] };
}

-- `queue.Queue.full`; a bound of 0 is none
abbrev pub is_full : SessionWriter → Bool
is_full w = not (eqb w.queue_max 0) && leb w.queue_max (length w.queue)

-- `_count_drop`
abbrev pub count_drop : SessionWriter → SessionWriter
count_drop w = record w { dropped = w.dropped + 1 }

-- `enqueue`
unfoldable pub enqueue : FlowRecord → SessionWriter → SessionWriter
enqueue r w =
    if w.capped
    then count_drop w
    else if is_full w
    then count_drop w
    else record w { queue = w.queue ++ some r ∷ [] }

-- the sentinel of `stop`, which waits until there is room for it
unfoldable pub ask_stop : SessionWriter → SessionWriter
ask_stop w = if is_full w then w else record w { queue = w.queue ++ none ∷ [] }

-- one `get` of `_collect`
abbrev pub taken : List (Option FlowRecord) → Machine → Machine
taken [] m = m
taken (none ∷ rest) m = record m {
  writer = record m.writer { queue = rest };
  done = true;
  stage = Stage.flushing;
}
taken (some r ∷ rest) m = record m {
  writer = record m.writer { queue = rest };
  batch = m.batch ++ r ∷ [];
}

abbrev pub take_one : Stage → Machine → Machine
take_one Stage.collecting m =
    if ltb (length m.batch) m.writer.batch_size then taken m.writer.queue m else m
take_one _ m = m

abbrev pub end_collection : Stage → Machine → Machine
end_collection Stage.collecting m = record m { stage = Stage.flushing }
end_collection _ m = m

-- `INSERT OR REPLACE INTO flows`
unfoldable pub insert_flow : FlowRow → List FlowRow → List FlowRow
insert_flow row rows = filter (λ r. not (r.flow_id == row.flow_id)) rows ++ row ∷ []

unfoldable pub insert_flows : List Encoded → List FlowRow → List FlowRow
unfolding insert_flow
insert_flows [] rows = rows
insert_flows (e ∷ es) rows = insert_flows es (insert_flow e.flow rows)

-- `INSERT OR REPLACE INTO ws_messages`
unfoldable pub insert_message : MessageRow → List MessageRow → List MessageRow
insert_message row rows =
    filter (λ r. not (r.flow_id == row.flow_id && eqb r.idx row.idx)) rows ++ row ∷ []

unfoldable pub insert_messages : List MessageRow → List MessageRow → List MessageRow
unfolding insert_message
insert_messages [] rows = rows
insert_messages (m ∷ ms) rows = insert_messages ms (insert_message m rows)

unfoldable pub all_messages : List Encoded → List MessageRow
all_messages [] = []
all_messages (e ∷ es) = e.ws ++ all_messages es

unfoldable pub all_notes : List Encoded → List NoteRow
all_notes [] = []
all_notes (e ∷ es) = e.notes ++ all_notes es

abbrev pub replace_notes : List Text → List NoteRow → List NoteRow → List NoteRow
replace_notes ids [] rows = rows
replace_notes ids (n ∷ ns) rows = filter (λ r. not (contains ids r.flow_id)) rows ++ n ∷ ns

-- the statements of `_flush`, in one transaction
unfoldable pub insert_all : List Encoded → Database → Database
unfolding insert_flows insert_messages all_messages all_notes
insert_all es db = record {
  flows = insert_flows es db.flows;
  messages = insert_messages (all_messages es) db.messages;
  notes = replace_notes (map (λ e. e.flow.flow_id) es) (all_notes es) db.notes;
}

-- back to `_run`: on with the next batch, unless the sentinel was seen
abbrev pub next_stage : Bool → Stage
next_stage done = if done then Stage.finished else Stage.collecting

-- the end of `_flush`; a failed transaction is rolled back and its flows are counted
abbrev pub committed : Bool → List Encoded → Machine → Machine
committed ok [] m = record m { stage = next_stage m.done }
committed ok (e ∷ es) m =
    let stored = insert_all (e ∷ es) m.database in
    if ok
    then record m {
      stage = next_stage m.done;
      encoded = [];
      database = stored;
      writer = record m.writer { written = length stored.flows };
    }
    else record m {
      stage = next_stage m.done;
      encoded = [];
      writer = record m.writer { dropped = m.writer.dropped + length (e ∷ es) };
    }

-- the transaction begins once the batch is encoded
abbrev pub commit_batch : Bool → List FlowRecord → Machine → Machine
commit_batch ok [] m = committed ok m.encoded m
commit_batch ok (_ ∷ _) m = m

abbrev pub commit : Bool → Stage → Machine → Machine
commit ok Stage.flushing m = commit_batch ok m.batch m
commit ok _ m = m

pub data Event : Type 0 where
  enqueued : FlowRecord → Event
  stop_asked take_turn interval_over encode_turn : Event
  commit_turn : Bool → Event

module _ (c : Coder) where
  -- one turn of the loop of `_flush`
  abbrev pub encode_head : List FlowRecord → Machine → Machine
  encode_head [] m = m
  encode_head (r ∷ rest) m =
      let w = m.writer in
      let item = encode_with c (w.seq + 1) r in
      let bytes = w.bytes_written + item.approx_bytes in
      if w.capped then record m { writer = count_drop w; batch = rest } else record m {
        writer = record w {
          seq = w.seq + 1;
          bytes_written = bytes;
          capped = leb w.max_bytes bytes;
        };
        batch = rest;
        encoded = m.encoded ++ item ∷ [];
      }

  abbrev pub encode_one : Stage → Machine → Machine
  encode_one Stage.flushing m = encode_head m.batch m
  encode_one _ m = m

  -- one step of the loop or of the thread
  unfoldable pub step : Event → Machine → Machine
  unfolding enqueue ask_stop insert_all redact_and_encode
  step (Event.enqueued r) m = record m { writer = enqueue r m.writer }
  step Event.stop_asked m = record m { writer = ask_stop m.writer }
  step Event.take_turn m = take_one m.stage m
  step Event.interval_over m = end_collection m.stage m
  step Event.encode_turn m = encode_one m.stage m
  step (Event.commit_turn ok) m = commit ok m.stage m

  unfoldable pub run : List Event → Machine → Machine
  unfolding step
  run [] m = m
  run (e ∷ es) m = run es (step e m)
