-- ===== src/Tests/Events.antt =====
-- A subscriber with room for one event, offered two.
use pporlock.Base.{ℕ, ◌<◌, ◌≡◌, refl, some, [], ◌∷◌, All, arith}
use pporlock.Base.Text.{codes}
use pporlock.Control.Events.{
  Event, EventData, EventType, Subscriber, deliver, new_subscriber, note_delivered, offer, take_gap,
}
use pporlock.Control.Events.Accounting.{IsPayload, Told}
use pporlock.Control.Events.Gaps.{Run, All-Told}

abbrev event : ℕ → Event
event seq = record {
  type = EventType.flow_completed;
  content = EventData.payload (codes "x");
  seq = seq;
  ts = codes "t";
}

event-IsPayload : (seq : ℕ) → IsPayload (event seq)
event-IsPayload seq = (codes "x", refl)

abbrev held : Subscriber
held = offer (event 2) (offer (event 1) (new_subscriber 1))

two_offered : Run 1 2 (2 ∷ 1 ∷ []) [] held
two_offered =
    Run.offers (Run.offers Run.start (event 1) (omega arith) (event-IsPayload 1)) (event 2)
      (omega arith) (event-IsPayload 2)

abbrev gap : Event
gap = record { type = EventType.stream_gap; content = EventData.range 0 2; seq = 2; ts = codes "t" }

abbrev emptied : Subscriber
emptied = record { queue = []; maxsize = 1; dropped = 0; last_delivered_seq = 2 }

delivered : deliver (codes "t") held ≡ some (emptied, gap ∷ event 2 ∷ [])
unfolding deliver offer new_subscriber take_gap note_delivered
delivered = refl

All-Told_example : All (λ q. Told q (gap ∷ event 2 ∷ [])) (2 ∷ 1 ∷ [])
All-Told_example =
    All-Told (Run.yields two_offered (codes "t") emptied (gap ∷ event 2 ∷ []) delivered) refl

held_bound : 0 < held.maxsize
unfolding offer new_subscriber
held_bound = omega arith
