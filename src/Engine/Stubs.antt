-- ===== src/Engine/Stubs.antt =====
-- Synthesised responses (engine/stubs.py). The text of the page that stands for a blocked document,
-- and the stub scripts that were read from disk, are arguments. `none` is an error.
pub mod Uncached
use pporlock.Base.{
  ℕ, ◌≡◌, refl, Bool, true, false, ◌||◌, Option, none, some, List, [], ◌∷◌, ◌++◌, ◌==◌, text_eq,
  or_else, if◌then◌else◌, Option-cases, inl, inr, not, Bool-cases,
}
use pporlock.Base.Text.{Text, codes, lower, strip, has_part, non_empty}
use pporlock.Base.Dict
use pporlock.Base.Dict.{Dict}
use pporlock.Engine.Models.{Bytes, HeaderPairs, NormalizedRequest, SyntheticResponse, header}
use pporlock.Engine.RuleSet.{StubSpec}

-- `TRANSPARENT_GIF`
abbrev pub transparent_gif : Bytes
transparent_gif =
    71 ∷ 73 ∷ 70 ∷ 56 ∷ 57 ∷ 97 ∷ 1 ∷ 0 ∷ 1 ∷ 0 ∷ 128 ∷ 0 ∷ 0 ∷ 0 ∷ 0 ∷ 0 ∷ 255 ∷ 255 ∷ 255 ∷ 33
    ∷ 249 ∷ 4 ∷ 1 ∷ 0 ∷ 0 ∷ 0 ∷ 0 ∷ 44 ∷ 0 ∷ 0 ∷ 0 ∷ 0 ∷ 1 ∷ 0 ∷ 1 ∷ 0 ∷ 0 ∷ 2 ∷ 2 ∷ 68 ∷ 1 ∷ 0 ∷ 59
    ∷ []

abbrev no_store : Text
no_store = codes "no-store, no-cache, must-revalidate"

abbrev content_type_header : Option Text → HeaderPairs
content_type_header none = []
content_type_header (some content_type) = (codes "content-type", content_type) ∷ []

-- `_response`
unfoldable pub stub_response : ℕ → Option Text → Bytes → Text → SyntheticResponse
stub_response status content_type body origin = record {
  status = status;
  body = body;
  headers =
      content_type_header content_type
      ++ (codes "cache-control", no_store) ∷ (codes "x-pporlock", codes "blocked") ∷ [];
  origin = origin;
}

-- `infer_dest_from_accept`
unfoldable pub infer_dest_from_accept : Option Text → Option Text
infer_dest_from_accept none = none
infer_dest_from_accept (some accept) =
    let value = lower accept in
    if not (non_empty accept)
    then none
    else if has_part value (codes "text/html") || has_part value (codes "application/xhtml")
    then some (codes "document")
    else if has_part value (codes "text/css")
    then some (codes "style")
    else if has_part value (codes "image/")
    then some (codes "image")
    else if has_part value (codes "font/") || has_part value (codes "application/font")
    then some (codes "font")
    else none

abbrev unlabelled : Text → Text
unlabelled accept =
    (if strip accept == codes "*/*" || strip accept == [] then codes "script" else [])

-- the kind that `auto_for` settles on
unfoldable pub stub_kind : Option Text → HeaderPairs → Text
unfolding infer_dest_from_accept header
stub_kind dest headers =
    let kind = lower (strip (or_else dest [])) in
    let accept = header (codes "accept") headers in
    if non_empty kind
    then kind
    else or_else (infer_dest_from_accept accept) (unlabelled (or_else accept []))

-- the table of `auto_for`; `page` is the blocked document
unfoldable pub auto_for :
    (Text → Text → Bytes) → Text → Text → NormalizedRequest → SyntheticResponse
unfolding stub_kind stub_response
auto_for page origin rule request =
    let kind = stub_kind request.dest request.headers in
    if kind == codes "script"
    then stub_response 200 (some (codes "application/javascript")) [] origin
    else if kind == codes "image"
    then stub_response 200 (some (codes "image/gif")) transparent_gif origin
    else if kind == codes "empty"
    then stub_response 200 (some (codes "application/json")) (codes "{}") origin
    else if kind == codes "iframe"
    then stub_response 200 (some (codes "text/html")) (codes "<!doctype html><title></title>")
        origin
    else if kind == codes "style"
    then stub_response 200 (some (codes "text/css")) [] origin
    else if kind == codes "document"
    then stub_response 403 (some (codes "text/html; charset=utf-8")) (page request.url rule) origin
    else stub_response 204 none [] origin

abbrev script_stub : Text → Option Bytes → Option SyntheticResponse
script_stub origin none = none
script_stub origin (some body) =
    some (stub_response 200 (some (codes "application/javascript")) body origin)

-- `StubLibrary.named`
unfoldable pub named_stub : Dict Text Bytes → Text → Text → Option SyntheticResponse
unfolding Dict.get stub_response
named_stub stubs origin name = script_stub origin (Dict.get name stubs)

-- `StubLibrary.resolve`
unfoldable pub resolve :
    (Text → Text → Bytes)
    → Dict Text Bytes
    → Text
    → Text
    → Option StubSpec
    → NormalizedRequest
    → Option SyntheticResponse
unfolding auto_for named_stub stub_response
resolve page stubs origin rule none request = some (auto_for page origin rule request)
resolve page stubs origin rule (some (StubSpec.named name)) request =
    if name == codes "auto"
    then some (auto_for page origin rule request)
    else named_stub stubs origin name
resolve page stubs origin rule (some (StubSpec.inline status content_type body)) request =
    some (stub_response status content_type body origin)
resolve page stubs origin rule (some StubSpec.invalid) request = none

-- a response that a cache must not keep, and that says where it is from
pub record IsUncached (origin : Text) (r : SyntheticResponse) : Type 0 where
  pub cache_control : header (codes "cache-control") r.headers ≡ some no_store
  pub traced : r.origin ≡ origin
