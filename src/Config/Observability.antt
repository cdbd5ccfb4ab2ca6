-- ===== src/Config/Observability.antt =====
-- src/config/mod.rs: the section `observability`.
use edge_gateway.Prelude.{ℕ, ◌*◌, Bool, false, [], Result, ok, ◌>>=◌, ◌>>◌}
use edge_gateway.Prelude.Text.{Text}
use edge_gateway.Config.{ConfigError, validate_seconds, validate_path, resolve_config_path}

-- `FileObservabilityMode` has the same three values.
pub data ObservabilityMode : Type 0 where
  off production diagnostic : ObservabilityMode

pub record ObservabilityConfig : Type 0 where
  pub mode : ObservabilityMode
  pub summary_interval : ℕ
  pub summary_file : Text
  pub diagnostic_interval : ℕ
  pub diagnostic_file : Text
  pub connection_event_logs_enabled : Bool
  pub detailed_frame_observation_enabled : Bool

-- `ObservabilityConfig::off`, for a file without the section.
abbrev pub switched_off : ObservabilityConfig
switched_off = record {
  mode = off;
  summary_interval = 300;
  summary_file = [];
  diagnostic_interval = 60;
  diagnostic_file = [];
  connection_event_logs_enabled = false;
  detailed_frame_observation_enabled = false;
}

pub record FileObservabilityConfig : Type 0 where
  pub mode : ObservabilityMode
  pub summary_interval_seconds : ℕ
  pub summary_file : Text
  pub diagnostic_interval_seconds : ℕ
  pub diagnostic_file : Text
  pub connection_event_logs_enabled : Bool
  pub detailed_frame_observation_enabled : Bool

unfoldable pub validate_observability :
    Text → FileObservabilityConfig → Result ConfigError ObservabilityConfig
validate_observability directory f = do
  summary_interval ←
      validate_seconds "observability.summary_interval_seconds" f.summary_interval_seconds
        (24 * 60 * 60)
  diagnostic_interval ←
      validate_seconds "observability.diagnostic_interval_seconds" f.diagnostic_interval_seconds
        (24 * 60 * 60)
  validate_path "observability.summary_file" f.summary_file
  validate_path "observability.diagnostic_file" f.diagnostic_file
  ok (record {
    mode = f.mode;
    summary_interval = summary_interval;
    summary_file = resolve_config_path directory f.summary_file;
    diagnostic_interval = diagnostic_interval;
    diagnostic_file = resolve_config_path directory f.diagnostic_file;
    connection_event_logs_enabled = f.connection_event_logs_enabled;
    detailed_frame_observation_enabled = f.detailed_frame_observation_enabled;
  })
