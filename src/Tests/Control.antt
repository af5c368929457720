-- ===== src/Tests/Control.antt =====
-- Access control, the audit log and attribution at small inputs.
use pporlock.Base.{
  ℕ, ◌+◌, ◌≤◌, ◌<◌, ◌≡◌, refl, true, none, some, List, [], ◌∷◌, text_eq, pair_eq, length, drop,
  reverse, arith, ◌⊎◌, ◌↔◌, contains,
}
use pporlock.Base.Int.{ℤ, pos}
use pporlock.Base.Text.{Text, codes, upper}
use pporlock.Base.Dict
use pporlock.Control.Auth.{
  OriginPolicy, PairingWindow, allows, is_extension_origin, make_policy, redeem,
}
use pporlock.Control.Auth.Pairing.{Lives, Tried, allows_safe, redeem_lem}
use pporlock.Control.Audit.{AuditEntry, AuditLog}
use pporlock.Control.Audit.Pages.{audit_pages_complete, pages}
use pporlock.Capture.Attribution.{AttributionEntry, AttributionIndex, new_index, resolve, submit}
use pporlock.Capture.Attribution.Accounts.{IsAccounted, Submitted, submit-IsAccounted}
use pporlock.Capture.Attribution.Joined.{Near, Resolved, resolve_lem}

abbrev own : List Text
own = codes "http://127.0.0.1:8081" ∷ []

abbrev policy : OriginPolicy
policy = make_policy own none none

abbrev extension : Text
extension = codes "chrome-extension://abcdefghijklmnopabcdefghijklmnop"

abbrev window : PairingWindow
window = record { code = some (codes "ab-cd"); expires_at = 220; ttl = 120 }

redeem_lem_example :
    (((redeem true 100 (codes "ab-cd") extension (window, policy)).1 ≡ none) ↔ (
      (window.code ≡ some (codes "ab-cd")) × (100 < 220) × (is_extension_origin extension ≡ true)))
    × Tried true extension policy (
      ((redeem true 100 (codes "ab-cd") extension (window, policy)).0).1,
      (redeem true 100 (codes "ab-cd") extension (window, policy)).1,
    )
    × ((((redeem true 100 (codes "ab-cd") extension (window, policy)).0).0).code ≡ none)
redeem_lem_example = redeem_lem true 100 (codes "ab-cd") extension window policy

extension_well_formed : is_extension_origin extension ≡ true
unfolding is_extension_origin
extension_well_formed = refl

allowed_own : allows (some (codes "http://127.0.0.1:8081")) policy ≡ true
unfolding allows make_policy text_eq
allowed_own = refl

allows_safe_example :
    (contains policy.self_origins (codes "http://127.0.0.1:8081") ≡ true)
    ⊎ (is_extension_origin (codes "http://127.0.0.1:8081") ≡ true)
allows_safe_example = allows_safe (Lives.begins none) (codes "http://127.0.0.1:8081") allowed_own

abbrev logged : ℕ → AuditEntry
logged n = record { ts = n ∷ []; origin = codes "ui"; action = codes "enable"; detail = [] }

abbrev audit : AuditLog
audit = record { log = logged 1 ∷ logged 2 ∷ logged 3 ∷ []; max_entries = 3 }

audit_length : length (reverse audit.log) ≤ 2 + 1
audit_length = omega arith

audit_pages_complete_example : pages 2 1 (some 1) audit ≡ drop 1 (reverse audit.log)
audit_pages_complete_example = audit_pages_complete 2 1 1 audit (omega arith) audit_length

abbrev observation : AttributionEntry
observation = record { method = codes "get"; url = codes "u"; ts = 50; tab_id = pos 7 }

abbrev index : AttributionIndex
index = record (new_index 5 2) {
  pending = ((codes "GET", codes "u"), observation) ∷ [];
  submitted = 1;
}

index-IsAccounted : IsAccounted index
unfolding Dict.get new_index
index-IsAccounted = record { distinct = (refl, tt); accounts = omega arith }

submit-IsAccounted_example :
    Submitted (observation ∷ []) index (submit 52 (observation ∷ []) index).0
    × IsAccounted (submit 52 (observation ∷ []) index).0
    × (length (submit 52 (observation ∷ []) index).0.pending ≤ index.max_pending)
    × ((submit 52 (observation ∷ []) index).1 ≡ length (observation ∷ []))
submit-IsAccounted_example = submit-IsAccounted 52 (observation ∷ []) index index-IsAccounted

resolve_lem_example :
    (((tab : ℤ) × ((resolve (codes "get") (codes "u") 53 index).1 ≡ some tab))
      ↔ ((e : AttributionEntry) × Near (upper (codes "get"), codes "u") 53 index e))
    × Resolved (codes "get") (codes "u") 53 54 index (resolve (codes "get") (codes "u") 53 index)
    × IsAccounted (resolve (codes "get") (codes "u") 53 index).0
resolve_lem_example = resolve_lem (codes "get") (codes "u") 53 54 index index-IsAccounted
