-- ===== src/Config/Types.antt =====
-- pkg/config/config.go: the configuration and its defaults.
use gasha_sandbox.Common.{Bool, true}
use gasha_sandbox.Common.Text.{Text, codes}
use gasha_sandbox.Common.Ints.{ℤ, pos}

pub record AnalysisConfig : Type 0 where
  pub default_timeout_seconds : ℤ
  pub max_timeout_seconds : ℤ
  pub storage_path : Text
  pub reports_dir : Text
  pub memory_dumps_dir : Text
  pub rules_dir : Text

pub record IsolationConfig : Type 0 where
  pub provider : Text
  pub cpu_limit_percent : ℤ
  pub memory_limit_mb : ℤ
  pub max_processes : ℤ

pub record NetworkConfig : Type 0 where
  pub containment : Text
  pub dns_server : Text
  pub pcap_enabled : Bool
  pub pcap_max_size_mb : ℤ

pub record YaraRulesConfig : Type 0 where
  pub enabled : Bool
  pub fast_scan : Bool

pub record SigmaRulesConfig : Type 0 where
  pub enabled : Bool
  pub batch_window_ms : ℤ

pub record RulesConfig : Type 0 where
  pub yara : YaraRulesConfig
  pub sigma : SigmaRulesConfig

pub record ApiConfig : Type 0 where
  pub listen_addr : Text
  pub api_key : Text
  pub rate_limit_per_min : ℤ

pub record Config : Type 0 where
  pub analysis : AnalysisConfig
  pub isolation : IsolationConfig
  pub network : NetworkConfig
  pub rules : RulesConfig
  pub api : ApiConfig

unfoldable pub default_config : Config
default_config = record {
  analysis = record {
    default_timeout_seconds = pos 120;
    max_timeout_seconds = pos 300;
    storage_path = codes "./lemas.db";
    reports_dir = codes "./reports";
    memory_dumps_dir = codes "./reports/dumps";
    rules_dir = codes "./rules";
  };
  isolation = record {
    provider = codes "job_object";
    cpu_limit_percent = pos 25;
    memory_limit_mb = pos 200;
    max_processes = pos 10;
  };
  network = record {
    containment = codes "loopback_only";
    dns_server = codes "8.8.8.8";
    pcap_enabled = true;
    pcap_max_size_mb = pos 100;
  };
  rules = record {
    yara = record { enabled = true; fast_scan = true };
    sigma = record { enabled = true; batch_window_ms = pos 100 };
  };
  api = record { listen_addr = codes ":8080"; api_key = codes ""; rate_limit_per_min = pos 30 };
}
