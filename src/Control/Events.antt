-- ===== src/Control/Events.antt =====
-- The hub of server-sent events (control/events.py). An event's data is an opaque text, except for
-- the range of a gap. The clock is an argument, and the framing of SSE is not modelled.
pub mod Accounting
pub mod Gaps
use pporlock.Base.{
  ℕ, ◌+◌, ◌≡◌, Bool, true, false, ◌&&◌, Option, none, some, List, [], ◌∷◌, ◌++◌, map, length, drop,
  leb, ltb, eqb, if◌then◌else◌, any,
}
use pporlock.Base.Text.{Text}
use pporlock.Base.Int.{ℤ, eqb_ℤ}
use pporlock.Capture.Records.{FlowRecord}

-- `EVENT_TYPES`
pub data EventType : Type 0 where
  flow_started flow_completed flow_updated websocket_message : EventType
  state_changed module_error module_quarantined session_changed stream_gap : EventType

-- `FLOW_EVENTS`
unfoldable pub is_flow_event : EventType → Bool
is_flow_event EventType.flow_started = true
is_flow_event EventType.flow_completed = true
is_flow_event EventType.flow_updated = true
is_flow_event EventType.websocket_message = true
is_flow_event _ = false

pub data EventData : Type 0 where
  payload : Text → EventData
  range : ℕ → ℕ → EventData

pub record Event : Type 0 where
  pub type : EventType
  pub content : EventData
  pub seq : ℕ
  pub ts : Text

-- `EventFilter`; `kinds` and `flow_filter` as the tests that they are
pub record EventFilter : Type 0 where
  pub kinds : Option (EventType → Bool)
  pub flow_filter : FlowRecord → Bool
  pub tab_id : Option ℤ

abbrev same_tab : ℤ → Option ℤ → Bool
same_tab tab none = false
same_tab tab (some other) = eqb_ℤ tab other

abbrev admits : Option (EventType → Bool) → EventType → Bool
admits none type = true
admits (some kinds) type = kinds type

abbrev tab_admits : Option ℤ → FlowRecord → Bool
tab_admits none r = true
tab_admits (some tab) r = same_tab tab r.tab_id

abbrev about_flow : EventFilter → Option FlowRecord → Bool
about_flow f none = true
about_flow f (some r) = tab_admits f.tab_id r && f.flow_filter r

-- `EventFilter.allows`
unfoldable pub allows : EventFilter → Event → Option FlowRecord → Bool
unfolding is_flow_event
allows f e r =
    if admits f.kinds e.type then (if is_flow_event e.type then about_flow f r else true) else false

pub record Subscriber : Type 0 where
  pub queue : List Event
  pub maxsize : ℕ
  pub dropped : ℕ
  pub last_delivered_seq : ℕ

unfoldable pub new_subscriber : ℕ → Subscriber
new_subscriber maxsize = record {
  queue = [];
  maxsize = maxsize;
  dropped = 0;
  last_delivered_seq = 0;
}

-- `asyncio.Queue.full`: a size of zero is no bound
abbrev pub full : ℕ → List Event → Bool
full maxsize queue = ltb 0 maxsize && leb maxsize (length queue)

-- `Subscriber.offer`: `get_nowait` takes the oldest, and the second `put_nowait` tests again
unfoldable pub offer : Event → Subscriber → Subscriber
offer e s =
    if full s.maxsize s.queue
    then (let rest = drop 1 s.queue in
        if full s.maxsize rest
        then record s { queue = rest; dropped = s.dropped + 1 + 1 }
        else record s { queue = rest ++ e ∷ []; dropped = s.dropped + 1 })
    else record s { queue = s.queue ++ e ∷ [] }

-- `Subscriber.take_gap`
unfoldable pub take_gap : Text → ℕ → Subscriber → Subscriber × Option Event
take_gap now upcoming_seq s = if eqb s.dropped 0 then (s, none) else (
  record s { dropped = 0 },
  some (record {
    type = EventType.stream_gap;
    content = EventData.range s.last_delivered_seq upcoming_seq;
    seq = upcoming_seq;
    ts = now;
  }),
)

-- `Subscriber.note_delivered`
unfoldable pub note_delivered : ℕ → Subscriber → Subscriber
note_delivered seq s = record s { last_delivered_seq = seq }

abbrev pub to_list {ℓ} : {A : Type ℓ} → Option A → List A
to_list none = []
to_list (some a) = a ∷ []

-- one round of the loop of `subscribe`, where an event is waiting: what is yielded
unfoldable pub deliver : Text → Subscriber → Option (Subscriber × List Event)
unfolding take_gap note_delivered
deliver now s = elim s.queue [
  | [] ↦ none
  | event ∷ rest ↦
      let taken = take_gap now event.seq (record s { queue = rest }) in
      some (note_delivered event.seq taken.0, to_list taken.1 ++ event ∷ [])
]

-- the gap that a reconnecting client is told first
unfoldable pub resume_gap : Text → Option ℕ → ℕ → List Event
resume_gap now none seq = []
resume_gap now (some resumed_from) seq =
    if ltb resumed_from seq
    then (record {
      type = EventType.stream_gap;
      content = EventData.range resumed_from seq;
      seq = seq;
      ts = now;
    })
      ∷ []
    else []

pub record EventHub : Type 0 where
  pub subscribers : List (Subscriber × EventFilter)
  pub seq : ℕ

abbrev pub offered : Event → Option FlowRecord → Subscriber × EventFilter → Subscriber × EventFilter
offered e r (s, f) = (if allows f e r then offer e s else s, f)

-- `EventHub.publish`
unfoldable pub publish : Text → EventType → Text → Option FlowRecord → EventHub → EventHub × Event
unfolding offer allows
publish now type content r hub =
    let event : Event = record {
      type = type;
      content = EventData.payload content;
      seq = hub.seq + 1;
      ts = now;
    } in
    (record { subscribers = map (offered event r) hub.subscribers; seq = hub.seq + 1 }, event)

-- `EventHub._add`, with the subscriber that `subscribe` makes
unfoldable pub subscribe : ℕ → EventFilter → EventHub → EventHub
unfolding new_subscriber
subscribe maxsize f hub = record hub { subscribers = (new_subscriber maxsize, f) ∷ hub.subscribers }
