-- ===== src/Tests/Wire.antt =====
-- A list of headers as the headers on the wire, and a phase of header rules on it.
use pporlock.Base.{
  ℕ, ◌≡◌, refl, ◌∙◌, Bool, true, false, ◌||◌, none, some, [], ◌∷◌, ◌++◌, ◌==◌, text_eq, All, arith,
  if◌then◌else◌, is_some,
}
use pporlock.Base.Text.{Text, codes, lower}
use pporlock.Base.Dict
use pporlock.Engine.Models.{HeaderPairs, headers_all}
use pporlock.Engine.Provenance.{Phase}
use pporlock.Engine.HeaderRules.{HeaderPhase, HeaderState, Side, apply_header_rules}
use pporlock.Addon.Apply.{WireHeaders, apply_header_ops, folded}
use pporlock.Addon.Apply.Refines.{Models, Plain, whole}
use pporlock.Addon.Apply.Honest.{any_applied, fresh, provenance_honest}
use pporlock.Tests.Data.{builder, tracing}

delete : Text → HeaderPairs → HeaderPairs
delete n [] = []
delete n ((k, v) ∷ h) = let rest = delete n h in if lower n == lower k then rest else (k, v) ∷ rest

all-delete :
    (n m : Text) (h : HeaderPairs)
    → headers_all m (delete n h) ≡ (if lower n == lower m then [] else headers_all m h)
unfolding headers_all delete
all-delete n m [] = ground arith
all-delete n m ((k, v) ∷ h) = ground (
  arith,
  all-delete n m h,
  text_eq.beq_iff (lower n) (lower k),
  text_eq.beq_iff (lower n) (lower m),
  text_eq.beq_iff (lower k) (lower m),
)

all-append :
    (n m v : Text) (h : HeaderPairs)
    → headers_all m (h ++ (n, v) ∷ [])
      ≡ (if lower n == lower m then headers_all m h ++ v ∷ [] else headers_all m h)
unfolding headers_all
all-append n m v [] = refl
all-append n m v ((k, w) ∷ h) = ground (arith, all-append n m v h)

all-assign :
    (n m v : Text) (h : HeaderPairs)
    → headers_all m (delete n h ++ (n, v) ∷ [])
      ≡ (if lower n == lower m then v ∷ [] else headers_all m h)
all-assign n m v h = all-append n m v (delete n h) ∙ ground (arith, all-delete n m h)

instance pair_headers : WireHeaders HeaderPairs
pair_headers = record {
  has = λ n h. is_some (folded (headers_all n h));
  get = λ n h. folded (headers_all n h);
  delete = delete;
  assign = λ n v h. delete n h ++ (n, v) ∷ [];
  append = λ n v h. h ++ (n, v) ∷ [];
  get_all = headers_all;
  has_lem = λ n h. refl;
  get_lem = λ n h. refl;
  get_all-delete = all-delete;
  get_all-assign = λ n m v h. all-assign n m v h;
  get_all-append = λ n m v h. all-append n m v h;
}

abbrev wire : HeaderPairs
wire = (codes "Accept", codes "*/*") ∷ []

abbrev state : HeaderState
state = (codes "accept", codes "*/*" ∷ []) ∷ []

whole_if :
    (b : Bool) (v : Text) → (if b then some (v ∷ []) else none) ≡ whole (if b then v ∷ [] else [])
whole_if true v = refl
whole_if false v = refl

abbrev took : ℕ → ℕ
took n = 1

state_Models : Models state wire
unfolding Dict.get headers_all pair_headers lower
state_Models n = whole_if (codes "accept" == lower n) (codes "*/*")

abbrev rules_run : HeaderPhase
rules_run =
    apply_header_rules took Side.request_side Phase.request_headers (tracing ∷ [])
      (fresh state builder)

values-Plain : All Plain rules_run.ops
unfolding apply_header_rules
values-Plain = (tt, (refl, tt))

-- Accept is set anew, and the cookie that is not there is no change
provenance_honest_example :
    Models rules_run.state (apply_header_ops false rules_run.ops wire).0
    × (any_applied rules_run.builder.entries
        ≡ any_applied builder.entries || (apply_header_ops false rules_run.ops wire).1)
provenance_honest_example =
    provenance_honest took Side.request_side Phase.request_headers (tracing ∷ []) state builder wire
      state_Models values-Plain
