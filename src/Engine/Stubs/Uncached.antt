-- ===== src/Engine/Stubs/Uncached.antt =====
-- No response that a stub gives is ever kept by a cache.
use pporlock.Base.{
  ◌≡◌, refl, Bool, true, false, Option, none, some, [], ◌==◌, text_eq, if◌then◌else◌, Option-cases,
  inl, inr, ℕ, subst,
}
use pporlock.Base.Text.{Text, codes, lower}
use pporlock.Base.Dict
use pporlock.Base.Dict.{Dict}
use pporlock.Engine.Models.{Bytes, NormalizedRequest, SyntheticResponse, header}
use pporlock.Engine.RuleSet.{StubSpec}
use pporlock.Engine.Stubs.{
  stub_response, auto_for, named_stub, resolve, IsUncached, stub_kind, transparent_gif,
}

stub_response-IsUncached :
    (status : ℕ) (content_type : Option Text) (body : Bytes) (origin : Text)
    → IsUncached origin (stub_response status content_type body origin)
unfolding stub_response header text_eq lower
stub_response-IsUncached status none body origin = record { cache_control = refl; traced = refl }
stub_response-IsUncached status (some content_type) body origin = record {
  cache_control = refl;
  traced = refl;
}

if_both :
    {R : Type 0} (Fine : R → Type 0) (test : Bool) (then_this else_that : R)
    → Fine then_this
    → Fine else_that
    → Fine (if test then then_this else else_that)
if_both Fine true r s good other = good
if_both Fine false r s good other = other

auto_for-IsUncached :
    (page : Text → Text → Bytes) (origin rule : Text) (request : NormalizedRequest)
    → IsUncached origin (auto_for page origin rule request)
unfolding auto_for
auto_for-IsUncached page origin rule request =
    let kind = stub_kind request.dest request.headers in
    let one = λ (status : ℕ) (t : Option Text) (body : Bytes).
      stub_response-IsUncached status t body origin in
    let P = IsUncached origin in
    if_both P (kind == codes "script") _ _ (one 200 (some (codes "application/javascript")) []) (
      if_both P (kind == codes "image") _ _ (one 200 (some (codes "image/gif")) transparent_gif) (
        if_both P (kind == codes "empty") _ _
          (one 200 (some (codes "application/json")) (codes "{}"))
          (if_both P (kind == codes "iframe") _ _
            (one 200 (some (codes "text/html")) (codes "<!doctype html><title></title>"))
            (if_both P (kind == codes "style") _ _ (one 200 (some (codes "text/css")) []) (
              if_both P (kind == codes "document") _ _
                (one 403 (some (codes "text/html; charset=utf-8")) (page request.url rule))
                (one 204 none []))))))

abbrev Every : (SyntheticResponse → Type 0) → Option SyntheticResponse → Type 0
Every P none = Unit
Every P (some r) = P r

named_stub-IsUncached :
    (stubs : Dict Text Bytes) (origin name : Text)
    → Every (IsUncached origin) (named_stub stubs origin name)
unfolding named_stub
named_stub-IsUncached stubs origin name = elim (Option-cases (Dict.get name stubs)) [
  | inl e ↦ rw (e, named_stub) tt
  | inr (body, e) ↦
      rw (e, named_stub)
        (stub_response-IsUncached 200 (some (codes "application/javascript")) body origin)
]

resolve-Every :
    (page : Text → Text → Bytes) (stubs : Dict Text Bytes) (origin rule : Text)
    (spec : Option StubSpec) (request : NormalizedRequest)
    → Every (IsUncached origin) (resolve page stubs origin rule spec request)
unfolding resolve
resolve-Every page stubs origin rule none request = auto_for-IsUncached page origin rule request
resolve-Every page stubs origin rule (some (StubSpec.named name)) request =
    if_both (Every (IsUncached origin)) (name == codes "auto") _ _
      (auto_for-IsUncached page origin rule request) (named_stub-IsUncached stubs origin name)
resolve-Every page stubs origin rule (some (StubSpec.inline status content_type body)) request =
    stub_response-IsUncached status content_type body origin
resolve-Every page stubs origin rule (some StubSpec.invalid) request = tt

-- Whatever a rule's stub says and whatever was asked for, a response that is made of it tells
-- caches not to keep it and names the rule as its origin.
pub resolve-IsUncached :
    (page : Text → Text → Bytes) (stubs : Dict Text Bytes) (origin rule : Text)
    (spec : Option StubSpec) (request : NormalizedRequest) (r : SyntheticResponse)
    → resolve page stubs origin rule spec request ≡ some r
    → IsUncached origin r
resolve-IsUncached page stubs origin rule spec request r h =
    subst (Every (IsUncached origin)) h (resolve-Every page stubs origin rule spec request)
