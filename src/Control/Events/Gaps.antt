-- ===== src/Control/Events/Gaps.antt =====
-- No event is lost in silence: what a subscriber was offered is delivered, or lies in a gap that the
-- subscriber is told of.
use pporlock.Base.{
  ℕ, ◌≤◌, ◌<◌, ◌≡◌, refl, subst, none, some, List, [], ◌∷◌, ◌++◌, length, All, arith, Bool-cases,
  inl, inr, ◌⊎◌, if◌then◌else◌, eqb,
}
use pporlock.Base.Text.{Text}
use pporlock.Control.Events.{
  Event, EventType, EventData, Subscriber, new_subscriber, offer, deliver,
}
use pporlock.Control.Events.Accounting.{
  Any, Any-append_left, Any-append_right, All-map, Tells, Told, Accounted, Rising, IsPayload, Keeps,
  offer-Keeps,
}

-- The life of one subscriber: it is offered events with rising sequence numbers, and its loop
-- yields what waits. The indices are the last number offered, all of them, and what was yielded.
pub data Run (maxsize : ℕ) : ℕ → List ℕ → List Event → Subscriber → Type 0 where
  start : Run maxsize 0 [] [] (new_subscriber maxsize)
  offers :
      {top : ℕ} {os : List ℕ} {out : List Event} {s : Subscriber}
      → Run maxsize top os out s
      → (e : Event) → top < e.seq
      → IsPayload e
      → Run maxsize e.seq (e.seq ∷ os) out (offer e s)
  yields :
      {top : ℕ} {os : List ℕ} {out : List Event} {s : Subscriber}
      → Run maxsize top os out s
      → (now : Text) (t : Subscriber) (es : List Event) → deliver now s ≡ some (t, es)
      → Run maxsize top os (out ++ es) t

start-Keeps : (maxsize : ℕ) → Keeps 0 [] [] (new_subscriber maxsize)
unfolding new_subscriber
start-Keeps maxsize = record {
  accounted = tt;
  below = tt;
  rising = tt;
  above = tt;
  capped = tt;
  payloads = tt;
  delivered = omega arith;
  bounded = λ h. omega arith;
  owing = λ h. absurd (omega arith);
}

abbrev gap_event : Text → ℕ → ℕ → Event
gap_event now a b = record {
  type = EventType.stream_gap;
  content = EventData.range a b;
  seq = b;
  ts = now;
}

-- what one delivery yields and leaves, by the number of drops
abbrev yielded : Text → Subscriber → Event → List Event
yielded now s e =
    if eqb s.dropped 0 then e ∷ [] else gap_event now s.last_delivered_seq e.seq ∷ e ∷ []

abbrev left_over : Subscriber → Event → List Event → Subscriber
left_over s e rest = record s { queue = rest; dropped = 0; last_delivered_seq = e.seq }

deliver_lem :
    (now : Text) (s : Subscriber) (e : Event) (rest : List Event)
    → s.queue ≡ e ∷ rest
    → deliver now s ≡ some (left_over s e rest, yielded now s e)
unfolding deliver
deliver_lem now s e rest h = elim (Bool-cases (eqb s.dropped 0)) [
  | inl z ↦ ground (arith, deliver)
  | inr z ↦ ground (arith, deliver)
]

deliver-none : (now : Text) (s : Subscriber) → s.queue ≡ [] → deliver now s ≡ none
unfolding deliver
deliver-none now s h = rw (h, deliver)

Tells-itself : (e : Event) → IsPayload e → Tells e.seq e
Tells-itself e (t, c) = rw c refl

module _ {top : ℕ} {os : List ℕ} {out : List Event} {s : Subscriber} (k : Keeps top os out s)
    (now : Text) (e : Event) (rest : List Event) (h : s.queue ≡ e ∷ rest) where
  head-Told : IsPayload e → Told e.seq (yielded now s e)
  head-Told p = elim (Bool-cases (eqb s.dropped 0)) [
    | inl z ↦ rw z (inl (Tells-itself e p))
    | inr z ↦ rw z (inr (inl (Tells-itself e p)))
  ]

  gap-Told :
      (q : ℕ) → 0 < s.dropped → s.last_delivered_seq < q → q < e.seq → Told q (yielded now s e)
  gap-Told q d a b = elim (Bool-cases (eqb s.dropped 0)) [
    | inl z ↦ absurd (ground arith)
    | inr z ↦ rw z (inl (a, b))
  ]

  Accounted-after :
      (q : ℕ) → Accounted out s q → Accounted (out ++ yielded now s e) (left_over s e rest) q
  Accounted-after q (inl told) = inl (Any-append_left _ out (yielded now s e) told)
  Accounted-after q (inr (inl waits)) = elim (subst (Any (λ f. f.seq ≡ q)) h waits) [
    | inl here ↦ inl (
        Any-append_right _ out (yielded now s e) (
          subst (λ x. Told x (yielded now s e)) here
            (head-Told (subst (All IsPayload) h k.payloads).0)))
    | inr later ↦ inr (inl later)
  ]
  Accounted-after q (inr (inr owed)) = inl (
      Any-append_right _ out (yielded now s e)
        (gap-Told q owed.0 owed.1 (subst (All (λ f. q < f.seq)) h owed.2).0))

  deliver-Keeps : Keeps top os (out ++ yielded now s e) (left_over s e rest)
  deliver-Keeps = record {
    accounted = All-map _ _ Accounted-after os k.accounted;
    below = k.below;
    rising = (subst Rising h k.rising).1;
    above = (subst Rising h k.rising).0;
    capped = (subst (All (λ f. f.seq ≤ top)) h k.capped).1;
    payloads = (subst (All IsPayload) h k.payloads).1;
    delivered = (subst (All (λ f. f.seq ≤ top)) h k.capped).0;
    bounded = λ b. omega (arith, subst (λ l. length l ≤ s.maxsize) h (k.bounded b));
    owing = λ d. absurd (omega arith);
  }

list_cases : {A : Type 0} (l : List A) → (l ≡ []) ⊎ ((x : A) × (xs : List A) × (l ≡ x ∷ xs))
list_cases [] = inl refl
list_cases (x ∷ xs) = inr (x, xs, refl)

deliver-Keeps_any :
    {top : ℕ} {os : List ℕ} {out : List Event} {s : Subscriber}
    → Keeps top os out s
    → (now : Text) (t : Subscriber) (es : List Event) → deliver now s ≡ some (t, es)
    → Keeps top os (out ++ es) t
deliver-Keeps_any {top} {os} {out} {s} k now t es d = elim (list_cases s.queue) [
  | inl nothing ↦ absurd (cc (d, deliver-none now s nothing))
  | inr (e, rest, h) ↦
      subst {A = Subscriber × List Event} (λ p. Keeps top os (out ++ p.1) p.0)
        (cc (d, deliver_lem now s e rest h)) (deliver-Keeps k now e rest h)
]

pub Run-Keeps :
    {maxsize top : ℕ} {os : List ℕ} {out : List Event} {s : Subscriber}
    → Run maxsize top os out s
    → Keeps top os out s
Run-Keeps start = start-Keeps _
Run-Keeps (offers r e later content) = offer-Keeps (Run-Keeps r) e later content
Run-Keeps (yields r now t es d) = deliver-Keeps_any (Run-Keeps r) now t es d

Told-when_empty :
    {top : ℕ} {os : List ℕ} {out : List Event} {s : Subscriber}
    → Keeps top os out s
    → s.queue ≡ []
    → (q : ℕ) → Accounted out s q
    → Told q out
Told-when_empty k h q (inl told) = told
Told-when_empty k h q (inr (inl waits)) = elim (subst (Any (λ e. e.seq ≡ q)) h waits) [ ]
Told-when_empty k h q (inr (inr owed)) =
    absurd (omega (arith, subst (λ l. 0 < length l) h (k.owing owed.0)))

-- Whatever the order in which a subscriber is offered events and its loop runs, once its queue is
-- empty every event it was ever offered has been yielded, or lies strictly inside a gap that was.
pub All-Told :
    {maxsize top : ℕ} {os : List ℕ} {out : List Event} {s : Subscriber}
    → Run maxsize top os out s
    → s.queue ≡ []
    → All (λ q. Told q out) os
All-Told {os = os} r h = All-map _ _ (Told-when_empty (Run-Keeps r) h) os (Run-Keeps r).accounted

-- Whatever the order in which a bounded subscriber is offered events and its loop runs, its queue
-- never holds more than its bound, and what waits in it has rising sequence numbers, all above the
-- last that was delivered.
pub queue_bounded :
    {maxsize top : ℕ} {os : List ℕ} {out : List Event} {s : Subscriber}
    → Run maxsize top os out s
    → 0 < s.maxsize
    → (length s.queue ≤ s.maxsize)
      × Rising (s.queue)
      × All (λ e. s.last_delivered_seq < e.seq) s.queue
queue_bounded r h = ((Run-Keeps r).bounded h, (Run-Keeps r).rising, (Run-Keeps r).above)
