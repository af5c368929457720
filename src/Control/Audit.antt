-- ===== src/Control/Audit.antt =====
-- The audit log (control/audit.py). An entry's detail is an opaque text; a cursor is the number that
-- it reads as, and one that is no number, or a negative one, is not modelled; nor is a negative
-- limit, which the route of app.py lets through.
pub mod Pages
use pporlock.Base.{
  ℕ, ◌+◌, ◌-◌, ◌≡◌, Option, none, some, List, [], ◌∷◌, ◌++◌, drop, length, ltb, or_else, reverse,
  take, if◌then◌else◌,
}
use pporlock.Base.Text.{Text}

pub record AuditEntry : Type 0 where
  pub ts : Text
  pub origin : Text
  pub action : Text
  pub detail : Text

-- `AuditLog`: the oldest first
pub record AuditLog : Type 0 where
  pub log : List AuditEntry
  pub max_entries : ℕ

-- `AuditLog.record`: the deque drops its oldest when it is full
unfoldable pub record_entry : AuditEntry → AuditLog → AuditLog
record_entry entry a =
    let log = a.log ++ entry ∷ [] in record a { log = drop (length log - a.max_entries) log }

-- `AuditLog.entries`, the newest first
unfoldable pub entries : ℕ → Option ℕ → AuditLog → List AuditEntry × Option ℕ
entries limit cursor a =
    let items = reverse a.log in
    let start = or_else cursor 0 in
    (
      take limit (drop start items),
      if ltb (start + limit) (length items) then some (start + limit) else none,
    )
