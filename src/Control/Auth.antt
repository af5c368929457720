-- ===== src/Control/Auth.antt =====
-- Access control (control/auth.py). The clock, the code that is drawn and the token are arguments; the
-- file of the paired extension is a field of the policy, and whether it can be written an argument.
-- `hmac.compare_digest` is equality; that it raises on a code that is not ASCII is not modelled.
pub mod Pairing
use pporlock.Base.{
  ℕ, zero, suc, ◌+◌, ◌≡◌, Bool, true, false, not, ◌&&◌, ◌||◌, Option, none, some, List, [], ◌∷◌,
  ◌++◌, ◌==◌, text_eq, contains, leb, ltb, eqb, length, drop, if◌then◌else◌,
}
use pporlock.Base.Text.{Text, after, before, codes, lower, non_empty, starts_with, strip}

-- `TokenStore.verify`
unfoldable pub verify : Text → Option Text → Bool
verify token none = false
verify token (some presented) = if not (non_empty presented) then false else presented == token

abbrev non_blank : Text → Option Text
non_blank text = if non_empty text then some text else none

-- `bearer_token`
unfoldable pub bearer_token : Option Text → Option Text
bearer_token none = none
bearer_token (some authorization) =
    if not (non_empty authorization)
    then none
    else if not (lower (before b' ' authorization) == codes "bearer")
    then none
    else non_blank (strip (after b' ' authorization))

abbrev pub extension_scheme : Text
extension_scheme = codes "chrome-extension://"

-- `[a-p]{32}$`: the end may be before a last line feed
unfoldable pub is_id : ℕ → Text → Bool
is_id zero [] = true
is_id zero (c ∷ s) = eqb c 10 && not (non_empty s)
is_id (suc n) [] = false
is_id (suc n) (c ∷ s) = (leb b'a' c && leb c b'p') && is_id n s

-- `EXTENSION_ORIGIN.match`
unfoldable pub is_extension_origin : Text → Bool
unfolding starts_with is_id
is_extension_origin origin =
    starts_with origin extension_scheme && is_id 32 (drop (length extension_scheme) origin)

-- `OriginPolicy`; `stored` is what its file holds
pub record OriginPolicy : Type 0 where
  pub self_origins : List Text
  pub extension_id : Option Text
  pub stored : Option Text

abbrev pub restore_from : Option Text → OriginPolicy → OriginPolicy
restore_from none p = p
restore_from (some text) p =
    if is_extension_origin (extension_scheme ++ strip text)
    then record p { extension_id = some (strip text) }
    else p

-- `_restore`
unfoldable pub restore : OriginPolicy → OriginPolicy
unfolding is_extension_origin
restore p = restore_from p.stored p

-- `OriginPolicy.__init__`
unfoldable pub make_policy : List Text → Option Text → Option Text → OriginPolicy
unfolding restore
make_policy self_origins none stored =
    restore (record { self_origins = self_origins; extension_id = none; stored = stored })
make_policy self_origins (some id) stored = record {
  self_origins = self_origins;
  extension_id = some id;
  stored = stored;
}

pub data PairingError : Type 0 where
  not_an_extension not_open expired no_match : PairingError

-- `_remember`
abbrev remember : Bool → Text → Option Text → Option Text
remember writable id stored = if writable then some id else stored

-- `pair_extension`; `none` is no error
unfoldable pub pair_extension : Bool → Text → OriginPolicy → OriginPolicy × Option PairingError
unfolding is_extension_origin
pair_extension writable origin p =
    if not (is_extension_origin origin)
    then (p, some PairingError.not_an_extension)
    else (let id = drop (length extension_scheme) origin in
        (record p { extension_id = some id; stored = remember writable id p.stored }, none))

abbrev pub is_paired : Option Text → Text → Bool
is_paired none origin = false
is_paired (some id) origin = origin == extension_scheme ++ id

-- `OriginPolicy.allows`
unfoldable pub allows : Option Text → OriginPolicy → Bool
allows none p = true
allows (some origin) p =
    if contains p.self_origins origin then true else is_paired p.extension_id origin

-- `PairingWindow`
pub record PairingWindow : Type 0 where
  pub code : Option Text
  pub expires_at : ℕ
  pub ttl : ℕ

-- `PairingWindow.open`
unfoldable pub open_window : ℕ → Text → PairingWindow → PairingWindow
open_window now code w = record w { code = some code; expires_at = now + w.ttl }

-- `PairingWindow.close`
unfoldable pub close_window : PairingWindow → PairingWindow
close_window w = record w { code = none; expires_at = 0 }

abbrev pub redeemed :
    Option Text → ℕ → Bool → ℕ → Text → Text → OriginPolicy → OriginPolicy × Option PairingError
redeemed none expires_at writable now code origin p = (p, some PairingError.not_open)
redeemed (some expected) expires_at writable now code origin p =
    if leb expires_at now
    then (p, some PairingError.expired)
    else if not (code == expected)
    then (p, some PairingError.no_match)
    else pair_extension writable origin p

-- `PairingWindow.redeem`: the window is closed first
unfoldable pub redeem :
    Bool
    → ℕ
    → Text
    → Text
    → PairingWindow × OriginPolicy
    → (PairingWindow × OriginPolicy) × Option PairingError
unfolding close_window pair_extension
redeem writable now code origin (w, p) =
    let done = redeemed w.code w.expires_at writable now code origin p in
    ((close_window w, done.0), done.1)

-- `VALID_CLIENTS`
abbrev valid_clients : List Text
valid_clients = codes "ui" ∷ codes "extension" ∷ codes "mcp" ∷ codes "cli" ∷ []

-- `require_client`; `none` is its error
unfoldable pub require_client : Option Text → Option Text
require_client none = none
require_client (some header) =
    if not (non_empty header)
    then none
    else if contains valid_clients (lower (strip header))
    then some (lower (strip header))
    else none
