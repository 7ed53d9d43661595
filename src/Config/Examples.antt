-- ===== src/Config/Examples.antt =====
-- Concrete configurations and requests.
use gasha_sandbox.Common.{inr, ℕ, ◌≡◌, ◌≢◌, ◌↔◌, refl, Option, some, [], ◌∷◌, if◌then◌else◌}
use gasha_sandbox.Common.Text.{Text, codes, text_eq}
use gasha_sandbox.Common.Ints.{pos}
use gasha_sandbox.Config.Types.{Config, default_config}
use gasha_sandbox.Config.Load.{
  FileResult, contents, not_exist, ok, validate, fix_rate_limit, with_environment, load,
}
use gasha_sandbox.Config.Valid.{IsValid, validate_iff}
use gasha_sandbox.Config.Loaded.{settled, load-IsValid, load-environment, load-open}
use gasha_sandbox.Api.Auth.{
  Handler, Request, Response, api_key_auth, presented_key, unauthorized, api_key_auth_lem,
}

abbrev path : Text
path = 99 ∷ []

-- One file, which sets the timeout and leaves the rest.
abbrev read_file : Text → FileResult
read_file p = if text_eq p path then contents (1 ∷ 2 ∷ []) else not_exist

abbrev unmarshal : Text → Config → Option Config
unmarshal bytes c =
    some (record c { analysis = record c.analysis { default_timeout_seconds = pos 200 } })

abbrev getenv : Text → Text
getenv name = if text_eq name (codes "LEMAS_API_KEY") then codes "secret" else []

abbrev from_file : Config
from_file = record default_config {
  analysis = record default_config.analysis { default_timeout_seconds = pos 200 };
}

abbrev loaded : Config
loaded = fix_rate_limit (with_environment getenv from_file)

load_file : load read_file unmarshal getenv path ≡ ok loaded
unfolding load validate with_environment default_config fix_rate_limit codes text_eq
load_file = refl

load-IsValid_example : IsValid loaded
load-IsValid_example = load-IsValid read_file unmarshal getenv path loaded load_file

found : read_file path ≡ contents (1 ∷ 2 ∷ [])
unfolding text_eq
found = refl

cons_not_nil : (x : ℕ) (l : Text) → x ∷ l ≢ []
cons_not_nil x l e = cc

load-environment_example :
    (load read_file unmarshal getenv path ≡ ok loaded)
    ↔ (IsValid loaded × (loaded ≡ settled getenv from_file))
load-environment_example =
    load-environment read_file unmarshal getenv path (1 ∷ 2 ∷ []) from_file loaded
      (cons_not_nil 99 []) found refl

validate_iff_example : (validate default_config ≡ ok default_config) ↔ IsValid default_config
validate_iff_example = validate_iff default_config

abbrev request : Request
request = record { method = codes "GET"; header = λ name. []; query = λ name. codes "secret" }

abbrev handler : Request → Response
handler r = record { status = 200; body = [] }

absent : read_file (98 ∷ []) ≡ not_exist
unfolding text_eq
absent = refl

load-open_example :
    (load read_file unmarshal getenv (98 ∷ []) ≡ ok default_config)
    × ((next : Handler) (r : Request) → api_key_auth default_config.api.api_key next r ≡ next r)
load-open_example = load-open read_file unmarshal getenv (98 ∷ []) (inr absent)

abbrev key : Text
key = 1 ∷ 2 ∷ []

abbrev other_key : Text
other_key = 1 ∷ 3 ∷ []

api_key_auth_example :
    (presented_key request ≡ key → api_key_auth key handler request ≡ handler request)
    × (presented_key request ≢ key → api_key_auth key handler request ≡ unauthorized)
api_key_auth_example = api_key_auth_lem key handler request (cons_not_nil 1 (2 ∷ []))
