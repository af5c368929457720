-- ===== src/Capture/Ring/Totals.antt =====
-- The bytes that a ring's records hold together, and how the dictionary operations move them.
use pporlock.Base.{ℕ, ◌+◌, ◌≤◌, ◌≡◌, some, none, [], ◌∷◌, text_eq, length, sum_by, All, arith}
use pporlock.Base.Text.{Text}
use pporlock.Base.Dict
use pporlock.Base.Dict.{Dict, NodupKeys, remove_absent}
use pporlock.Capture.Records.{FlowRecord, size_bytes}

abbrev pub total : Dict Text FlowRecord → ℕ
total = sum_by (λ e. size_bytes e.1)

-- the key of every record is its own id
abbrev pub Named : Dict Text FlowRecord → Type 0
Named = All (λ e. e.1.flow_id ≡ e.0)

module _ (k : Text) (v : FlowRecord) where
  pub total-set_absent :
      (d : Dict Text FlowRecord)
      → Dict.get k d ≡ none
      → total (Dict.set k v d) ≡ total d + size_bytes v
  unfolding Dict.get Dict.set
  total-set_absent [] h = omega arith
  total-set_absent ((j, w) ∷ d) h = ground (arith, total-set_absent d)

  pub total-remove :
      (d : Dict Text FlowRecord)
      → NodupKeys d
      → Dict.get k d ≡ some v
      → total (Dict.remove k d) + size_bytes v ≡ total d
  unfolding Dict.get Dict.remove
  total-remove [] u h = ground arith
  total-remove ((j, w) ∷ d) u h =
      ground (arith, total-remove d u.1, text_eq.beq_iff j k, remove_absent k d)

  pub length-set_absent :
      (d : Dict Text FlowRecord) → Dict.get k d ≡ none → length (Dict.set k v d) ≡ length d + 1
  unfolding Dict.get Dict.set
  length-set_absent [] h = omega arith
  length-set_absent ((j, w) ∷ d) h = ground (arith, length-set_absent d)

  pub Named-set : (d : Dict Text FlowRecord) → v.flow_id ≡ k → Named d → Named (Dict.set k v d)
  unfolding Dict.set
  Named-set [] e h = (e, tt)
  Named-set ((j, w) ∷ d) e h = ground (arith, text_eq.beq_iff j k, Named-set d e h.1)

pub total-set_present :
    (k : Text) (old new : FlowRecord) (d : Dict Text FlowRecord)
    → Dict.get k d ≡ some old
    → total (Dict.set k new d) + size_bytes old ≡ total d + size_bytes new
unfolding Dict.get Dict.set
total-set_present k old new [] h = ground arith
total-set_present k old new ((j, w) ∷ d) h = ground (arith, total-set_present k old new d)

pub Named-remove : (k : Text) (d : Dict Text FlowRecord) → Named d → Named (Dict.remove k d)
unfolding Dict.remove
Named-remove k [] h = tt
Named-remove k ((j, w) ∷ d) h = ground (arith, Named-remove k d h.1)

pub get-Named :
    (k : Text) (v : FlowRecord) (d : Dict Text FlowRecord)
    → Named d
    → Dict.get k d ≡ some v
    → v.flow_id ≡ k
unfolding Dict.get
get-Named k v [] h e = ground arith
get-Named k v ((j, w) ∷ d) h e = ground (arith, text_eq.beq_iff j k, get-Named k v d h.1)

pub total-ge :
    (k : Text) (v : FlowRecord) (d : Dict Text FlowRecord)
    → Dict.get k d ≡ some v
    → size_bytes v ≤ total d
unfolding Dict.get
total-ge k v [] h = ground arith
total-ge k v ((j, w) ∷ d) h = ground (arith, total-ge k v d)

pub length-set_present :
    (k : Text) (old new : FlowRecord) (d : Dict Text FlowRecord)
    → Dict.get k d ≡ some old
    → length (Dict.set k new d) ≡ length d
unfolding Dict.get Dict.set
length-set_present k old new [] h = ground arith
length-set_present k old new ((j, w) ∷ d) h = ground (arith, length-set_present k old new d)
