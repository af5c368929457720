-- ===== src/Control/Events/Accounting.antt =====
-- Where each offered event is: waiting, told, or owed to the subscriber as part of the next gap.
use pporlock.Base.{
  ℕ, ◌+◌, ◌≤◌, ◌<◌, ◌≡◌, refl, true, false, List, [], ◌∷◌, ◌++◌, length, drop, length-drop, All,
  All-append, arith, Bool-cases, inl, inr, ◌⊎◌, length-append,
}
use pporlock.Base.Text.{Text}
use pporlock.Control.Events.{Event, EventData, Subscriber, full, offer}

abbrev pub Any {ℓ} : {A : Type ℓ} → (A → Type 0) → List A → Type 0
Any P [] = ⊥
Any P (x ∷ xs) = P x ⊎ Any P xs

module _ {ℓ} {A : Type ℓ} (P : A → Type 0) where
  pub Any-append_left : (xs ys : List A) → Any P xs → Any P (xs ++ ys)
  Any-append_left (x ∷ xs) ys (inl p) = inl p
  Any-append_left (x ∷ xs) ys (inr p) = inr (Any-append_left xs ys p)
  Any-append_left [] ys p = elim p [ ]

  pub Any-append_right : (xs ys : List A) → Any P ys → Any P (xs ++ ys)
  Any-append_right [] ys p = p
  Any-append_right (x ∷ xs) ys p = inr (Any-append_right xs ys p)

  All-drop : (xs : List A) → All P xs → All P (drop 1 xs)
  All-drop [] h = h
  All-drop (x ∷ xs) h = h.1

  pub All-map : (Q : A → Type 0) → ((x : A) → P x → Q x) → (xs : List A) → All P xs → All Q xs
  All-map Q f [] h = tt
  All-map Q f (x ∷ xs) h = (f x h.0, All-map Q f xs h.1)

  pub All-both :
      (Q R : A → Type 0)
      → ((x : A) → P x → Q x → R x)
      → (xs : List A) → All P xs
      → All Q xs
      → All R xs
  All-both Q R f [] h k = tt
  All-both Q R f (x ∷ xs) h k = (f x h.0 k.0, All-both Q R f xs h.1 k.1)

  All-snoc : (xs : List A) (x : A) → All P xs → P x → All P (xs ++ x ∷ [])
  All-snoc xs x h p = All-append P xs (x ∷ []) h (p, tt)

-- the event with this sequence number, or a gap around it
abbrev pub Tells : ℕ → Event → Type 0
Tells q e = elim e.content [
  | EventData.payload _ ↦ e.seq ≡ q
  | EventData.range a b ↦ (a < q) × (q < b)
]

abbrev pub Told : ℕ → List Event → Type 0
Told q = Any (Tells q)

abbrev pub Waits : ℕ → Subscriber → Type 0
Waits q s = Any (λ e. e.seq ≡ q) s.queue

-- dropped, and the next gap will say so
abbrev pub Owed : ℕ → Subscriber → Type 0
Owed q s = (0 < s.dropped) × (s.last_delivered_seq < q) × All (λ e. q < e.seq) s.queue

abbrev pub Accounted : List Event → Subscriber → ℕ → Type 0
Accounted out s q = Told q out ⊎ Waits q s ⊎ Owed q s

abbrev pub Rising : List Event → Type 0
Rising [] = Unit
Rising (e ∷ l) = All (λ f. e.seq < f.seq) l × Rising l

abbrev pub IsPayload : Event → Type 0
IsPayload e = (t : Text) × (e.content ≡ EventData.payload t)

-- `os` are the sequence numbers offered so far, all at most `top`; `out` is what was yielded
pub record Keeps (top : ℕ) (os : List ℕ) (out : List Event) (s : Subscriber) : Type 0 where
  pub accounted : All (Accounted out s) os
  pub below : All (λ q. q ≤ top) os
  pub rising : Rising s.queue
  pub above : All (λ e. s.last_delivered_seq < e.seq) s.queue
  pub capped : All (λ e. e.seq ≤ top) s.queue
  pub payloads : All IsPayload s.queue
  pub delivered : s.last_delivered_seq ≤ top
  pub bounded : 0 < s.maxsize → length s.queue ≤ s.maxsize
  pub owing : 0 < s.dropped → 0 < length s.queue

Rising-snoc :
    (l : List Event) (e : Event) → Rising l → All (λ f. f.seq < e.seq) l → Rising (l ++ e ∷ [])
Rising-snoc [] e r h = (tt, tt)
Rising-snoc (f ∷ l) e r h = (All-snoc _ l e r.0 h.0, Rising-snoc l e r.1 h.1)

Rising-drop : (l : List Event) → Rising l → Rising (drop 1 l)
Rising-drop [] r = r
Rising-drop (f ∷ l) r = r.1

-- dropping the oldest leaves an event in the queue, or makes it owed
drop_waits :
    (q last : ℕ) (l : List Event)
    → Rising l
    → All (λ e. last < e.seq) l
    → Any (λ e. e.seq ≡ q) l
    → Any (λ e. e.seq ≡ q) (drop 1 l) ⊎ ((last < q) × All (λ e. q < e.seq) (drop 1 l))
drop_waits q last (f ∷ l) r h (inl e) =
    inr (omega (arith, h.0), All-map _ _ (λ g p. omega (arith, p)) l r.0)
drop_waits q last (f ∷ l) r h (inr w) = inl w
drop_waits q last [] r h w = elim w [ ]

module _ {top : ℕ} {os : List ℕ} {out : List Event} {s : Subscriber} (k : Keeps top os out s)
    (e : Event) (later : top < e.seq) (content : IsPayload e) where
  abbrev pushed : Subscriber
  pushed = record s { queue = s.queue ++ e ∷ [] }

  abbrev rotated : Subscriber
  rotated = record s { queue = drop 1 s.queue ++ e ∷ []; dropped = s.dropped + 1 }

  capped_below : All (λ f. f.seq < e.seq) s.queue
  capped_below = All-map _ _ (λ f p. omega (arith, p, later)) s.queue k.capped

  os_below : All (λ q. q ≤ e.seq) (e.seq ∷ os)
  os_below = (omega arith, All-map _ _ (λ q p. omega (arith, p, later)) os k.below)

  pushed-Accounted : (q : ℕ) → q ≤ top → Accounted out s q → Accounted out pushed q
  pushed-Accounted q h (inl told) = inl told
  pushed-Accounted q h (inr (inl waits)) = inr (inl (Any-append_left _ s.queue (e ∷ []) waits))
  pushed-Accounted q h (inr (inr owed)) =
      inr (inr (owed.0, owed.1, All-snoc _ s.queue e owed.2 (omega (arith, later))))

  rotated-Accounted : (q : ℕ) → q ≤ top → Accounted out s q → Accounted out rotated q
  rotated-Accounted q h (inl told) = inl told
  rotated-Accounted q h (inr (inl waits)) =
      elim (drop_waits q s.last_delivered_seq s.queue k.rising k.above waits) [
        | inl w ↦ inr (inl (Any-append_left _ (drop 1 s.queue) (e ∷ []) w))
        | inr (a, b) ↦
            inr (inr (omega arith, a, All-snoc _ (drop 1 s.queue) e b (omega (arith, later))))
      ]
  rotated-Accounted q h (inr (inr owed)) = inr (
      inr (
        omega arith,
        owed.1,
        All-snoc _ (drop 1 s.queue) e (All-drop _ s.queue owed.2) (omega (arith, later)),
      ))

  new_waits : (l : List Event) → Any (λ f. f.seq ≡ e.seq) (l ++ e ∷ [])
  new_waits l = Any-append_right _ l (e ∷ []) (inl refl)

  pushed-Keeps : full s.maxsize s.queue ≡ false → Keeps e.seq (e.seq ∷ os) out pushed
  pushed-Keeps room = record {
    accounted =
        (inr (inl (new_waits s.queue)), All-both _ _ _ pushed-Accounted os k.below k.accounted);
    below = os_below;
    rising = Rising-snoc s.queue e k.rising capped_below;
    above = All-snoc _ s.queue e k.above (omega (arith, k.delivered, later));
    capped =
        All-snoc _ s.queue e (All-map _ _ (λ f p. omega (arith, p)) s.queue capped_below)
          (omega arith);
    payloads = All-snoc _ s.queue e k.payloads content;
    delivered = omega (arith, k.delivered, later);
    bounded = λ h. ground (arith, k.bounded h, length-append s.queue (e ∷ []));
    owing = λ h. omega (arith, length-append s.queue (e ∷ []));
  }

  rotated-Keeps : full s.maxsize s.queue ≡ true → Keeps e.seq (e.seq ∷ os) out rotated
  rotated-Keeps no_room =
      let rest = drop 1 s.queue in
      record {
        accounted =
            (inr (inl (new_waits rest)), All-both _ _ _ rotated-Accounted os k.below k.accounted);
        below = os_below;
        rising =
            Rising-snoc rest e (Rising-drop s.queue k.rising) (All-drop _ s.queue capped_below);
        above = All-snoc _ rest e (All-drop _ s.queue k.above) (omega (arith, k.delivered, later));
        capped =
            All-snoc _ rest e
              (All-map _ _ (λ f p. omega (arith, p)) rest (All-drop _ s.queue capped_below))
              (omega arith);
        payloads = All-snoc _ rest e (All-drop _ s.queue k.payloads) content;
        delivered = omega (arith, k.delivered, later);
        bounded =
            λ h. ground (arith, k.bounded h, length-append rest (e ∷ []), length-drop 1 s.queue);
        owing = λ h. omega (arith, length-append rest (e ∷ []));
      }

  room_again : full s.maxsize s.queue ≡ true → full s.maxsize (drop 1 s.queue) ≡ false
  room_again h = ground (arith, k.bounded, length-drop 1 s.queue)

  pub offer-Keeps : Keeps e.seq (e.seq ∷ os) out (offer e s)
  unfolding offer
  offer-Keeps = elim (Bool-cases (full s.maxsize s.queue)) [
    | inl no_room ↦ rw no_room (rw (room_again no_room) (rotated-Keeps no_room))
    | inr room ↦ rw room (pushed-Keeps room)
  ]
