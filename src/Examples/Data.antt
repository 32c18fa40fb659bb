-- ===== src/Examples/Data.antt =====
-- Concrete values: a caller, tools, a network, a JSON library, a regex engine, a float interface.
use intellisphere.Auth.Gate.{IngressGate}
use intellisphere.Satellite.Ws.{SatelliteMessage, tool_proposal}
use intellisphere.Config.Service
use intellisphere.Config.Service.{SphereConfig}
use intellisphere.Core.{CoreClient}
use intellisphere.Common.{
  ℕ, suc, ◌<◌, ◌^◌, ◌≡◌, ◌+◌, ◌-◌, ◌*◌, ◌/◌, min, String, refl, Bool, true, false, Option, none,
  some, [], ◌∷◌, Result, ok, err, leb, arith,
}
use intellisphere.Common.Text.{◌<>◌}
use intellisphere.Common.Float.{Float}
use intellisphere.Config.{default_pipeline}
use intellisphere.Auth.Identity.{Identity}
use intellisphere.Proto.{Message, ToolCall}
use intellisphere.Pipeline.Context
use intellisphere.Pipeline.Context.{PipelineContext}
use intellisphere.Pipeline.Regex.{RegexLaws, literal_engine}
use intellisphere.Pipeline.Chain.{PipelineChain, from_config}
use intellisphere.Tools.Registry.{ToolRegistration, ToolRegistry, satellite, sphere}
use intellisphere.Tools.Json.{JsonLib}
use intellisphere.Tools.ScopedClient.{Network}
use intellisphere.Tools.Executor
use intellisphere.Tools.Executor.{ToolExecutor}

pub literal_laws : RegexLaws literal_engine
literal_laws = record {
  find_iter-is_match = λ r s h. ground arith;
  is_match-find_iter = λ r s h. ground arith;
  replace_all_id = λ r s t h. rw h;
  set_matches_def = λ rs s. refl;
}

pub leb_trans : (a b c : ℕ) → leb a b ≡ true → leb b c ≡ true → leb a c ≡ true
leb_trans a b c h k = ground arith

pub leb_total : (a b : ℕ) → leb a b ≡ false → leb b a ≡ true
leb_total a b h = ground arith

pub leb-add : (a b : ℕ) → leb 0 b ≡ true → leb a (a + b) ≡ true
leb-add a b h = ground arith

pub leb-add' : (a b : ℕ) → leb 0 a ≡ true → leb b (a + b) ≡ true
leb-add' a b h = ground arith

pub add-none : (a : ℕ) → a + 0 ≡ a
add-none a = omega arith

pub none_of : (a : ℕ) → 0 * a / 10 ≡ 0
none_of a = omega arith

pub sub-leb : (a b : ℕ) → leb 0 b ≡ true → leb (a - b) a ≡ true
sub-leb a b h = ground arith

pub zero_leb : (n : ℕ) → leb 0 n ≡ true
zero_leb n = ground arith

pub leb-tens : (m n : ℕ) → m < 2 ^ 53 → n < 2 ^ 53 → leb (m * 10) (n * 10) ≡ leb m n
leb-tens m n h k = ground arith

pub tens-sub : (n : ℕ) → suc n < 2 ^ 53 → suc n * 10 - 10 ≡ n * 10
tens-sub n h = omega arith

-- Amounts that are not negative, counted in tenths.
instance abbrev pub tenths_float : Float ℕ
tenths_float = record {
  nat = λ n. n * 10;
  tenths = λ n. n;
  add = λ a b. a + b;
  sub = λ a b. a - b;
  mul = λ a b. a * b / 10;
  div = λ a b. a * 10 / b;
  le = leb;
  seconds = λ n. n / 100000000;
  to_u32 = λ a. min (a / 10) 4294967295;
  le_trans = leb_trans;
  le_total = leb_total;
  le-add = leb-add;
  le-add' = leb-add';
  nat_pos = λ n. zero_leb (n * 10);
  seconds_pos = λ n. zero_leb (n / 100000000);
  mul_pos = λ a b h k. zero_leb (a * b / 10);
  div_pos = λ a n h. zero_leb (a * 10 / (suc n * 10));
  seconds-zero = refl;
  mul-zero = none_of;
  add-zero = add-none;
  sub-le = sub-leb;
  tenths_pos = zero_leb;
  le-nat = leb-tens;
  sub-nat = tens-sub;
}

abbrev pub lower : String → String
lower s = s

abbrev pub identity : String → String
identity s = s

abbrev pub user : Identity
user = record { sub = "u1"; roles = "admin" ∷ []; scopes = "tools:read" ∷ []; metadata = [] }

abbrev pub say : String → Message
say s = record { role = "user"; content = s; tool_results = []; tool_calls = [] }

abbrev pub fresh : PipelineContext
fresh = Context.new "r1" "s1"

abbrev pub json : JsonLib ℕ
json = record {
  from_str = λ s. ok 0;
  null = 0;
  message_of = λ v. none;
  compile = λ v. ok (λ w. []);
  error_body = λ code message. message;
  echo_body = λ message time. message;
}

abbrev pub net : Network
net = record {
  parse = λ s. ok (record { scheme = "https"; host_str = some "api.example.com"; href = s });
  get = λ c u. ok "page";
  post = λ c n u body. some (ok "done");
}

abbrev pub quiet : ToolCall → Bool
quiet tc = false

abbrev pub exec : ToolExecutor
exec = Executor.new ("api.example.com" ∷ [])

abbrev pub open_tool : ToolRegistration
open_tool = record {
  name = "lookup";
  description = "looks up";
  input_schema_json = "{}";
  zone = satellite;
  required_scopes = [];
  required_roles = [];
  handler_url = none;
  timeout_ms = 1000;
}

abbrev pub guarded_tool : ToolRegistration
guarded_tool = record open_tool {
  name = "wipe";
  zone = sphere;
  required_scopes = "tools:write" ∷ [];
}

abbrev pub registry : ToolRegistry
registry = record { tools = ("lookup", open_tool) ∷ ("wipe", guarded_tool) ∷ [] }

abbrev pub call : String → String → ToolCall
call id name = record { call_id = id; name = name; arguments_json = "{}" }

abbrev pub chain : PipelineChain
chain = from_config literal_engine lower default_pipeline

abbrev pub mac : String → String → String
mac key content = key <> content

abbrev pub rfc3339 : ℕ → String
rfc3339 t = "2026"

abbrev pub parse : String → Result SatelliteMessage String
parse s = ok (tool_proposal "p" "lookup" s)

abbrev pub plus : ℕ → ℕ → Option ℕ
plus t d = some (t + d)

abbrev pub open_gate : IngressGate
open_gate = record { enabled = false; strategies = [] }

abbrev pub config : SphereConfig
config = Service.read (record {
  listen_addr = none;
  core_grpc_url = none;
  pipeline = none;
  tools = none;
  auth = none;
  rate_limit = none;
  policies = none;
})

abbrev pub core : CoreClient String String
core = record {
  inner = record {
    complete = λ request. err "refused";
    complete_stream = λ request. err "refused";
    health = λ request. err "refused";
  };
}
