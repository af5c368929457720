-- ===== src/Control/Audit/Pages.antt =====
-- The bound on the log, and its pages put together.
use pporlock.Base.{
  ℕ, zero, suc, ◌+◌, ◌-◌, ◌≤◌, ◌<◌, ◌≡◌, refl, sym, ap, ◌∙◌, Option, none, some, List, [], ◌∷◌,
  ◌++◌, drop, length, length-drop, length-append, ltb, reverse, take, arith, Bool-cases, inl, inr,
}
use pporlock.Control.Audit.{AuditEntry, AuditLog, entries, record_entry}

-- following the cursors, page after page, for at most `n` pages
abbrev pub follow : (Option ℕ → List AuditEntry) → Option ℕ → List AuditEntry
follow rest none = []
follow rest (some next) = rest (some next)

unfoldable pub pages : ℕ → ℕ → Option ℕ → AuditLog → List AuditEntry
unfolding entries
pages zero limit cursor a = []
pages (suc n) limit cursor a =
    let page = entries limit cursor a in page.0 ++ follow (λ c. pages n limit c a) page.1

take-drop : (n : ℕ) (l : List AuditEntry) → take n l ++ drop n l ≡ l
take-drop zero l = refl
take-drop (suc n) [] = refl
take-drop (suc n) (e ∷ l) = ap (λ m. e ∷ m) (take-drop n l)

drop_nil : (n : ℕ) → drop {A = AuditEntry} n [] ≡ []
drop_nil zero = refl
drop_nil (suc n) = refl

drop-drop : (m n : ℕ) (l : List AuditEntry) → drop n (drop m l) ≡ drop (m + n) l
drop-drop zero n l = ap (λ k. drop k l) (omega arith)
drop-drop (suc m) n [] = drop_nil n ∙ sym (drop_nil (suc m + n))
drop-drop (suc m) n (e ∷ l) =
    let next : suc (m + n) ≡ suc m + n = omega arith in
    drop-drop m n l ∙ ap (λ k. drop k (e ∷ l)) next

drop_all : (n : ℕ) (l : List AuditEntry) → length l ≤ n → drop n l ≡ []
drop_all zero [] h = refl
drop_all zero (e ∷ l) h = absurd (omega (arith, h))
drop_all (suc n) [] h = refl
drop_all (suc n) (e ∷ l) h = drop_all n l (omega (arith, h))

page_on :
    (start limit : ℕ) (l : List AuditEntry)
    → take limit (drop start l) ++ drop (start + limit) l ≡ drop start l
page_on start limit l =
    ap (λ m. take limit (drop start l) ++ m) (sym (drop-drop start limit l))
    ∙ take-drop limit (drop start l)

-- Following the cursors of the audit log from any place gives every entry from there on, newest
-- first, each of them once, where a page holds at least one entry, the limit being above 0: as many
-- calls as there are entries from there on are enough.
pub audit_pages_complete :
    (n limit start : ℕ) (a : AuditLog)
    → 0 < limit
    → length (reverse a.log) ≤ n + start
    → pages n limit (some start) a ≡ drop start (reverse a.log)
unfolding pages entries
audit_pages_complete zero limit start a positive h =
    sym (drop_all start (reverse a.log) (omega (arith, h)))
audit_pages_complete (suc n) limit start a positive h =
    elim (Bool-cases (ltb (start + limit) (length (reverse a.log)))) [
      | inl more ↦ rw more (
          ap (λ m. take limit (drop start (reverse a.log)) ++ m)
            (audit_pages_complete n limit (start + limit) a positive (omega (arith, h, positive)))
          ∙ page_on start limit (reverse a.log))
      | inr done ↦ rw done (
          ap (λ m. take limit (drop start (reverse a.log)) ++ m)
            (sym (drop_all (start + limit) (reverse a.log) (ground (arith, done))))
          ∙ page_on start limit (reverse a.log))
    ]

-- A full log stays within its bound, and what it keeps are its newest entries in their order: the log
-- and what was recorded, less some oldest entries that only make room.
pub record_entry_lem :
    (entry : AuditEntry) (a : AuditLog)
    → (length (record_entry entry a).log ≤ (record_entry entry a).max_entries)
      × ((record_entry entry a).log ≡ drop (length a.log + 1 - a.max_entries) (a.log ++ entry ∷ []))
unfolding record_entry
record_entry_lem entry a = (
  omega (arith, length-drop (length (a.log ++ entry ∷ []) - a.max_entries) (a.log ++ entry ∷ [])),
  ap (λ n. drop (n - a.max_entries) (a.log ++ entry ∷ [])) (length-append a.log (entry ∷ [])),
)
