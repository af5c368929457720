-- ===== src/Engine/Models.antt =====
-- The normalized flow model (engine/models.py): requests, responses, frames and mutations.
-- Bodies are lists of bytes; a header's name and value, a host and a path are texts.
use pporlock.Base.{
  ℕ, Bool, true, false, not, ◌&&◌, Option, none, some, List, [], ◌∷◌, ◌==◌, text_eq, length, any,
  is_some, if◌then◌else◌,
}
use pporlock.Base.Int.{ℤ}
use pporlock.Base.Text.{Text, codes, lower, strip, before, after_part, has_part, non_empty}
use pporlock.Base.Dict
use pporlock.Base.Dict.{Dict}

abbrev pub Bytes : Type 0
Bytes = List ℕ

abbrev pub HeaderPairs : Type 0
HeaderPairs = List (Text × Text)

pub data Scheme : Type 0 where
  http https : Scheme

pub data WsDirection : Type 0 where
  outbound inbound : WsDirection

pub data WsOpcode : Type 0 where
  text binary : WsOpcode

-- `value.split(";", 1)[0].strip().lower() or None`
unfoldable pub media_type : Option Text → Option Text
media_type none = none
media_type (some value) =
    let media = lower (strip (before b';' value)) in if non_empty media then some media else none

-- `_HeaderAccess.header`: the first value under the name, whatever its case
unfoldable pub header : Text → HeaderPairs → Option Text
header name [] = none
header name ((key, value) ∷ rest) = if lower key == lower name then some value else header name rest

-- `_HeaderAccess.headers_all`
unfoldable pub headers_all : Text → HeaderPairs → List Text
headers_all name [] = []
headers_all name ((key, value) ∷ rest) =
    let others = headers_all name rest in if lower key == lower name then value ∷ others else others

-- `_HeaderAccess.has_header`
unfoldable pub has_header : Text → HeaderPairs → Bool
has_header name = any (λ h. lower h.0 == lower name)

pub record NormalizedRequest : Type 0 where
  pub flow_id : Text
  pub timestamp : Text
  pub scheme : Scheme
  pub method : Text
  pub host : Text
  pub port : ℕ
  pub path : Text
  pub url : Text
  pub query : List (Text × Text)
  pub headers : HeaderPairs
  pub dest : Option Text
  pub body : Option Bytes
  pub body_truncated : Bool
  pub tab_id : Option ℤ

-- `query_param`: names are compared as they are
unfoldable pub query_param : Text → List (Text × Text) → Option Text
query_param name [] = none
query_param name ((key, value) ∷ rest) = if key == name then some value else query_param name rest

unfoldable pub body_size : Option Bytes → ℕ
body_size none = 0
body_size (some body) = length body

pub record NormalizedResponse : Type 0 where
  pub flow_id : Text
  pub timestamp : Text
  pub status : ℕ
  pub reason : Text
  pub headers : HeaderPairs
  pub body : Option Bytes
  pub body_truncated : Bool
  pub streamed : Bool
  pub encoding : Option Text

-- the property `content_type`, of a request or a response
unfoldable pub content_type : HeaderPairs → Option Text
unfolding media_type header
content_type headers = media_type (header (codes "content-type") headers)

-- the charset that a raw Content-Type names, else utf-8
unfoldable pub charset_of : Option Text → Text
charset_of none = codes "utf-8"
charset_of (some raw) =
    let named = strip (before b';' (after_part (lower raw) (codes "charset="))) in
    if has_part (lower raw) (codes "charset=") && non_empty named then named else codes "utf-8"

-- The property `text`. `decode` is the codec of the charset: `none` is a codec that is not there, or
-- bytes that it refuses.
unfoldable pub text_of : (Text → Bytes → Option Text) → NormalizedResponse → Option Text
unfolding charset_of header
text_of decode response = elim response.body [
  | none ↦ none
  | some body ↦ decode (charset_of (header (codes "content-type") response.headers)) body
]

pub record WebSocketMessage : Type 0 where
  pub flow_id : Text
  pub index : ℕ
  pub timestamp : Text
  pub direction : WsDirection
  pub opcode : WsOpcode
  pub payload : Bytes
  pub truncated : Bool

pub record RedirectSpec : Type 0 where
  pub scheme : Option Scheme
  pub host : Option Text
  pub port : Option ℕ
  pub path : Option Text
  pub query : Option Text

unfoldable pub is_empty_redirect : RedirectSpec → Bool
is_empty_redirect spec =
    not (is_some spec.scheme)
    && not (is_some spec.host)
    && not (is_some spec.port)
    && not (is_some spec.path)
    && not (is_some spec.query)

pub record SyntheticResponse : Type 0 where
  pub status : ℕ
  pub body : Bytes
  pub headers : HeaderPairs
  pub origin : Text

-- `HeaderOp`; the value of a remove is not read
pub data HeaderOp : Type 0 where
  set add : Text → Text → HeaderOp
  remove : Text → HeaderOp

-- `HeaderMutation.set`, `.add` and `.remove` lower the name and append
abbrev pub set_op : Text → Text → HeaderOp
set_op name value = HeaderOp.set (lower name) value

abbrev pub add_op : Text → Text → HeaderOp
add_op name value = HeaderOp.add (lower name) value

abbrev pub remove_op : Text → HeaderOp
remove_op name = HeaderOp.remove (lower name)

-- the view `set_headers`: the last value wins, at the place of the first
unfoldable pub set_headers_from : Dict Text Text → List HeaderOp → Dict Text Text
unfolding Dict.set
set_headers_from merged [] = merged
set_headers_from merged (HeaderOp.set name value ∷ ops) =
    set_headers_from (Dict.set name value merged) ops
set_headers_from merged (HeaderOp.add name value ∷ ops) = set_headers_from merged ops
set_headers_from merged (HeaderOp.remove name ∷ ops) = set_headers_from merged ops

unfoldable pub set_headers : List HeaderOp → Dict Text Text
unfolding set_headers_from
set_headers ops = set_headers_from [] ops

-- the view `add_headers`
unfoldable pub add_headers : List HeaderOp → List (Text × Text)
add_headers [] = []
add_headers (HeaderOp.add name value ∷ ops) = (name, value) ∷ add_headers ops
add_headers (HeaderOp.set name value ∷ ops) = add_headers ops
add_headers (HeaderOp.remove name ∷ ops) = add_headers ops

-- `RequestMutation`
pub record RequestMutation : Type 0 where
  pub ops : List HeaderOp
  pub redirect : Option RedirectSpec
  pub short_circuit : Option SyntheticResponse
  pub body : Option Bytes

-- `ResponseMutation`
pub record ResponseMutation : Type 0 where
  pub ops : List HeaderOp
  pub status : Option ℕ
  pub body : Option Bytes

abbrev pub no_request_mutation : RequestMutation
no_request_mutation = record { ops = []; redirect = none; short_circuit = none; body = none }

abbrev pub no_response_mutation : ResponseMutation
no_response_mutation = record { ops = []; status = none; body = none }

abbrev pub no_ops : List HeaderOp → Bool
no_ops [] = true
no_ops (_ ∷ _) = false

unfoldable pub is_empty_request : RequestMutation → Bool
is_empty_request m =
    no_ops m.ops
    && not (is_some m.redirect)
    && not (is_some m.short_circuit)
    && not (is_some m.body)

unfoldable pub is_empty_response : ResponseMutation → Bool
is_empty_response m = no_ops m.ops && not (is_some m.status) && not (is_some m.body)
