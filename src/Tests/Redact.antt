-- ===== src/Tests/Redact.antt =====
-- Redaction of a small body and of two headers, with a mask that is a mark before the value.
use pporlock.Base.{◌≡◌, refl, Bool, true, false, List, [], ◌∷◌, eqb, text_eq}
use pporlock.Base.Text.{Text, codes, lower, has_part}
use pporlock.Engine.Models.{HeaderPairs}
use pporlock.Capture.Redact.{
  Elements, HeaderPattern, Json, Members, RedactionConfig, redact_headers, walk,
}

abbrev pub marked : Text → Text
marked v = 0 ∷ v

abbrev pub is_marked : Text → Bool
is_marked [] = false
is_marked (c ∷ _) = eqb c 0

pub is_marked-marked : (v : Text) → is_marked (marked v) ≡ true
is_marked-marked v = refl

abbrev pub patterns : List Text
patterns = codes "token" ∷ []

-- {"Token": ["x", "y"], "token": {"id": "z"}}
abbrev body : Json
body = Json.object (
    Members.member (codes "Token")
      (Json.array (
        Elements.element (Json.string (codes "x"))
          (Elements.element (Json.string (codes "y")) Elements.done)))
      (Members.member (codes "token")
        (Json.object (Members.member (codes "id") (Json.string (codes "z")) Members.close))
        Members.close))

-- the object below a key that is hit stays in the clear
walk_body : walk marked is_marked patterns false body ≡ (
  Json.object (
      Members.member
        (codes "Token")
        (Json.array (
          Elements.element
            (Json.string (0 ∷ codes "x"))
            (Elements.element (Json.string (0 ∷ codes "y")) Elements.done)))
        (Members.member
          (codes "token")
          (Json.object (Members.member (codes "id") (Json.string (codes "z")) Members.close))
          Members.close)),
  true,
)
unfolding walk lower has_part
walk_body = refl

abbrev pub cfg : RedactionConfig
cfg = record {
  enabled = true;
  header_patterns = HeaderPattern.exact (codes "Cookie") ∷ [];
  query_patterns = [];
  json_key_patterns = patterns;
}

abbrev headers : HeaderPairs
headers = (codes "cookie", codes "a=1") ∷ (codes "Accept", codes "b") ∷ []

redact_two :
    redact_headers marked is_marked cfg headers
    ≡ ((codes "cookie", 0 ∷ codes "a=1") ∷ (codes "Accept", codes "b") ∷ [], true)
unfolding redact_headers lower text_eq
redact_two = refl
