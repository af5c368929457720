-- ===== src/Addon/Apply.antt =====
-- Mutations on their way to the wire (addon/apply.py). mitmproxy's `Headers` is an interface: its
-- operations and their documented behaviour, in terms of the values that stand under a name.
pub mod Refines
pub mod Honest
use pporlock.Base.{
  ℕ, ◌≡◌, Bool, true, false, not, ◌||◌, Option, none, some, List, [], ◌∷◌, ◌++◌, ◌==◌, text_eq, eqb,
  if◌then◌else◌, is_some, nat_eq,
}
use pporlock.Base.Text.{Text, codes, lower, before, non_empty}
use pporlock.Engine.Models.{
  Bytes, HeaderOp, Scheme, RedirectSpec, is_empty_redirect, RequestMutation, ResponseMutation,
  is_empty_request, is_empty_response, SyntheticResponse,
}

-- `", ".join(values)`
unfoldable pub join : List Text → Text
join [] = []
join (v ∷ []) = v
join (v ∷ w ∷ vs) = v ++ b',' ∷ b' ' ∷ join (w ∷ vs)

-- `headers.get(name)`: the values folded with a comma, where there is one
unfoldable pub folded : List Text → Option Text
unfolding join
folded [] = none
folded (v ∷ vs) = some (join (v ∷ vs))

pub record WireHeaders (H : Type 0) : Type 1 where
  pub has : Text → H → Bool
  pub get : Text → H → Option Text
  pub delete : Text → H → H
  pub assign : Text → Text → H → H
  pub append : Text → Text → H → H
  -- `get_all`
  pub get_all : Text → H → List Text
  pub has_lem : (n : Text) (h : H) → has n h ≡ is_some (folded (get_all n h))
  pub get_lem : (n : Text) (h : H) → get n h ≡ folded (get_all n h)
  pub get_all-delete :
      (n m : Text) (h : H)
      → get_all m (delete n h) ≡ (if lower n == lower m then [] else get_all m h)
  pub get_all-assign :
      (n m v : Text) (h : H)
      → get_all m (assign n v h) ≡ (if lower n == lower m then v ∷ [] else get_all m h)
  pub get_all-append :
      (n m v : Text) (h : H)
      → get_all m (append n v h)
        ≡ (if lower n == lower m then get_all m h ++ v ∷ [] else get_all m h)

abbrev pub is_value : Option Text → Text → Bool
is_value none value = false
is_value (some held) value = held == value

module _ {H : Type 0} ⦃w : WireHeaders H⦄ where
  -- one round of the loop of `_apply_header_ops`
  unfoldable pub apply_header_op : HeaderOp → H → H × Bool
  apply_header_op (HeaderOp.remove name) h =
      if w.has name h then (w.delete name h, true) else (h, false)
  apply_header_op (HeaderOp.set name value) h =
      if is_value (w.get name h) value then (h, false) else (w.assign name value h, true)
  apply_header_op (HeaderOp.add name value) h = (w.append name value h, true)

  -- `_apply_header_ops`, with the flag so far
  unfoldable pub apply_header_ops : Bool → List HeaderOp → H → H × Bool
  unfolding apply_header_op
  apply_header_ops changed [] h = (h, changed)
  apply_header_ops changed (op ∷ ops) h =
      let done = apply_header_op op h in apply_header_ops (changed || done.1) ops done.0

-- the parts of a mitmproxy request that the adapter writes
pub record WireRequest (H : Type 0) : Type 0 where
  pub scheme : Scheme
  pub host : Text
  pub port : ℕ
  pub path : Text
  pub headers : H
  pub content : Option Bytes

pub record WireResponse (H : Type 0) : Type 0 where
  pub status_code : ℕ
  pub headers : H
  pub content : Option Bytes

pub record WireFlow (H : Type 0) : Type 0 where
  pub request : WireRequest H
  pub response : Option (WireResponse H)

abbrev pub written {ℓ} : {A : Type ℓ} → Option A → A → A
written none old = old
written (some new) old = new

abbrev pub content_or : Option Bytes → Option Bytes → Option Bytes
content_or none old = old
content_or (some body) old = some body

-- `spec.query` on a path
abbrev pub with_query : Option Text → Text → Text
with_query none path = path
with_query (some query) path =
    if non_empty query then before b'?' path ++ b'?' ∷ query else before b'?' path

module _ {H : Type 0} where
  -- `apply_redirect`
  unfoldable pub apply_redirect : RedirectSpec → WireRequest H → WireRequest H × Bool
  unfolding is_empty_redirect
  apply_redirect spec r = if is_empty_redirect spec then (r, false) else (
    record r {
      scheme = written spec.scheme r.scheme;
      host = written spec.host r.host;
      port = written spec.port r.port;
      path = with_query spec.query (written spec.path r.path);
    },
    true,
  )

  abbrev pub redirected : Option RedirectSpec → WireRequest H → WireRequest H × Bool
  redirected none r = (r, false)
  redirected (some spec) r = apply_redirect spec r

-- `http.Response.make` is mitmproxy's
module _ {H : Type 0} ⦃w : WireHeaders H⦄ (make : SyntheticResponse → WireResponse H) where
  abbrev pub answered : Option SyntheticResponse → Option (WireResponse H) → Option (WireResponse H)
  answered none old = old
  answered (some synthetic) old = some (make synthetic)

  -- `apply_request_mutation`
  unfoldable pub apply_request_mutation : RequestMutation → WireFlow H → WireFlow H × Bool
  unfolding is_empty_request apply_redirect apply_header_ops
  apply_request_mutation m flow =
      if is_empty_request m
      then (flow, false)
      else (let moved = redirected m.redirect flow.request in
          let edited = apply_header_ops false m.ops moved.0.headers in
          (
            record {
              request = record moved.0 {
                headers = edited.0;
                content = content_or m.body moved.0.content;
              };
              response = answered m.short_circuit flow.response;
            },
            ((moved.1 || edited.1) || is_some m.body) || is_some m.short_circuit,
          ))

module _ {H : Type 0} ⦃w : WireHeaders H⦄ where
  abbrev pub status_written : Option ℕ → WireResponse H → WireResponse H × Bool
  status_written none r = (r, false)
  status_written (some status) r =
      if r.status_code == status then (r, false) else (record r { status_code = status }, true)

  unfoldable pub write_response : ResponseMutation → WireResponse H → WireResponse H × Bool
  unfolding apply_header_ops
  write_response m r =
      let moved = status_written m.status r in
      let edited = apply_header_ops false m.ops moved.0.headers in
      (
        record moved.0 { headers = edited.0; content = content_or m.body moved.0.content },
        (moved.1 || edited.1) || is_some m.body,
      )

  -- `apply_response_mutation`
  unfoldable pub apply_response_mutation : ResponseMutation → WireFlow H → WireFlow H × Bool
  unfolding is_empty_response write_response
  apply_response_mutation m flow = elim flow.response [
    | none ↦ (flow, false)
    | some r ↦
        if is_empty_response m
        then (flow, false)
        else (let done = write_response m r in (record flow { response = some done.0 }, done.1))
  ]
