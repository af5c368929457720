-- ===== src/Tests/Data.antt =====
-- The values that the tests share.
use pporlock.Base.{ℕ, true, false, none, some, [], ◌∷◌}
use pporlock.Base.Text.{Text, codes}
use pporlock.Engine.Models.{NormalizedRequest, NormalizedResponse, Scheme}
use pporlock.Engine.Provenance.{Action, Builder, new_builder}
use pporlock.Engine.Matcher.{CompiledMatcher}
use pporlock.Engine.RuleSet.{BlockMode, CompiledRule, Params, Transform}

abbrev pub page : NormalizedRequest
page = record {
  flow_id = codes "f";
  timestamp = codes "t";
  scheme = Scheme.https;
  method = codes "GET";
  host = codes "ads.example";
  port = 443;
  path = codes "/a.js";
  url = codes "https://ads.example/a.js";
  query = [];
  headers = (codes "Accept", codes "*/*") ∷ [];
  dest = none;
  body = none;
  body_truncated = false;
  tab_id = none;
}

abbrev pub script : NormalizedResponse
script = record {
  flow_id = codes "f";
  timestamp = codes "t";
  status = 200;
  reason = codes "OK";
  headers = (codes "Content-Type", codes "text/html") ∷ [];
  body = some (104 ∷ 105 ∷ []);
  body_truncated = false;
  streamed = false;
  encoding = none;
}

abbrev pub everything : CompiledMatcher
everything = record {
  host_glob = none;
  path_re = none;
  methods = none;
  dests = none;
  query_res = [];
  request_header_res = [];
  statuses = none;
  content_type_re = none;
  matches_everything = true;
}

abbrev pub plain : Params
plain = record {
  mode = BlockMode.stub;
  stub = none;
  file = [];
  status = 200;
  content_type = none;
  to = record { scheme = none; host = none; port = none; path = none; query = none };
  request = none;
  response = none;
  transform = none;
  transforms = [];
}

abbrev pub rule_of : Text → Action → ℕ → Params → CompiledRule
rule_of name action priority params = record {
  rule_id = name;
  module_name = codes "m";
  name = name;
  action = action;
  matcher = everything;
  priority = priority;
  index = 0;
  enabled = true;
  params = params;
}

abbrev pub blocking : CompiledRule
blocking = rule_of (codes "m:0") Action.block 10 plain

abbrev pub tracing : CompiledRule
tracing = rule_of (codes "m:1") Action.headers 20 (record plain {
  request = some (record {
    removes = codes "Cookie" ∷ [];
    sets = (codes "Accept", codes "text/html") ∷ [];
    adds = [];
  });
})

abbrev pub upper_case : Transform
upper_case = record { kind = codes "replace_literal"; report_only = true; options = [] }

abbrev pub rewriting : CompiledRule
rewriting = rule_of (codes "m:2") Action.body 5 (record plain { transforms = upper_case ∷ [] })

abbrev pub builder : Builder
builder = new_builder (codes "default") []
