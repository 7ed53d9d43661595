-- ===== src/Config/Load.antt =====
-- pkg/config/config.go: `Load` and `validate`. What the file system answers, the YAML decoder and
-- the environment are parameters.
use gasha_sandbox.Common.{Option, none, some}
use gasha_sandbox.Common.{◌||◌, if◌then◌else◌, is_nil, not}
use gasha_sandbox.Common.Text.{Text, codes}
use gasha_sandbox.Common.Ints.{pos, is_negative, is_positive, less}
use gasha_sandbox.Config.Types.{Config, default_config}

-- What `os.ReadFile` answers.
pub data FileResult : Type 0 where
  contents : Text → FileResult
  not_exist : FileResult
  unreadable : FileResult

pub data ConfigError : Type 0 where
  default_timeout_not_positive : ConfigError
  max_timeout_too_short : ConfigError
  storage_path_empty : ConfigError
  reports_dir_empty : ConfigError
  rules_dir_empty : ConfigError
  cpu_limit_out_of_range : ConfigError
  memory_limit_negative : ConfigError
  max_processes_negative : ConfigError
  pcap_size_negative : ConfigError

pub data LoadError : Type 0 where
  read_failed : LoadError
  parse_failed : LoadError
  validation : ConfigError → LoadError

pub data Result (E : Type 0) : Type 0 where
  ok : Config → Result E
  err : E → Result E

-- The rate limit that is not positive is replaced and reported to nobody.
unfoldable pub fix_rate_limit : Config → Config
fix_rate_limit c = record c {
  api = record c.api {
    rate_limit_per_min =
        if is_positive c.api.rate_limit_per_min then c.api.rate_limit_per_min else pos 30;
  };
}

unfoldable pub validate : Config → Result ConfigError
unfolding fix_rate_limit
validate c =
    if not (is_positive c.analysis.default_timeout_seconds)
    then err default_timeout_not_positive
    else if less c.analysis.max_timeout_seconds c.analysis.default_timeout_seconds
    then err max_timeout_too_short
    else if is_nil c.analysis.storage_path
    then err storage_path_empty
    else if is_nil c.analysis.reports_dir
    then err reports_dir_empty
    else if is_nil c.analysis.rules_dir
    then err rules_dir_empty
    else if is_negative c.isolation.cpu_limit_percent
        || less (pos 100) c.isolation.cpu_limit_percent
    then err cpu_limit_out_of_range
    else if is_negative c.isolation.memory_limit_mb
    then err memory_limit_negative
    else if is_negative c.isolation.max_processes
    then err max_processes_negative
    else if is_negative c.network.pcap_max_size_mb
    then err pcap_size_negative
    else ok (fix_rate_limit c)

-- `if v := os.Getenv(…); v != ""`
abbrev pub overridden : Text → Text → Text
overridden v old = if is_nil v then old else v

unfoldable pub with_environment : (Text → Text) → Config → Config
with_environment getenv c = record c {
  analysis = record c.analysis {
    storage_path = overridden (getenv (codes "LEMAS_DB_PATH")) c.analysis.storage_path;
    reports_dir = overridden (getenv (codes "LEMAS_REPORTS_DIR")) c.analysis.reports_dir;
    rules_dir = overridden (getenv (codes "LEMAS_RULES_DIR")) c.analysis.rules_dir;
  };
  api = record c.api {
    api_key = overridden (getenv (codes "LEMAS_API_KEY")) c.api.api_key;
    listen_addr = overridden (getenv (codes "LEMAS_LISTEN_ADDR")) c.api.listen_addr;
  };
}

abbrev pub wrapped : Result ConfigError → Result LoadError
wrapped (ok c) = ok c
wrapped (err e) = err (validation e)

abbrev pub checked : (Text → Text) → Option Config → Result LoadError
checked getenv none = err parse_failed
checked getenv (some c) = wrapped (validate (with_environment getenv c))

abbrev pub load_file :
    (Text → Config → Option Config) → (Text → Text) → FileResult → Result LoadError
load_file unmarshal getenv (contents bytes) = checked getenv (unmarshal bytes default_config)
load_file unmarshal getenv not_exist = ok default_config
load_file unmarshal getenv unreadable = err read_failed

unfoldable pub load :
    (Text → FileResult) → (Text → Config → Option Config) → (Text → Text) → Text → Result LoadError
unfolding validate with_environment default_config
load read_file unmarshal getenv path =
    if is_nil path then ok default_config else load_file unmarshal getenv (read_file path)
