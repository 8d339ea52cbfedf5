-- ===== src/Collector/Config.antt =====
-- The collector's own configuration file (internal/collector/config.go). The codec of the file is an
-- argument: `unmarshal` of its bytes and `marshal_indent` of a configuration.
pub mod Loading
mod Tests
use my_token.Base.{
  Text, Bool, false, not, ◌==◌, List, [], ◌∷◌, ◌++◌, Option, none, some, if◌then◌else◌,
}
use my_token.Base.Files.{Write, write_file}
use my_token.Collector.Scan.{ScanPath, default_source_type}

pub record Config : Type 0 where
  pub scan_paths : List ScanPath
  pub install_id : Text
  pub hostname : Text
  pub core_url : Text
  pub api_key : Text

unfoldable pub resolve_hostname : Config → Option Text → Option Text
resolve_hostname cfg os_hostname =
    if not (cfg.hostname == []) then some cfg.hostname else os_hostname

-- The loop over `cfg.ScanPaths`.
unfoldable pub with_source_types : List ScanPath → List ScanPath
with_source_types [] = []
with_source_types (sp ∷ paths) =
    record {
      name = sp.name;
      path = sp.path;
      source_type = if sp.source_type == [] then default_source_type else sp.source_type;
    }
    ∷ with_source_types paths

-- The configuration with the types of its scan roots filled in.
unfoldable pub with_defaults : Config → Config
unfolding with_source_types
with_defaults cfg = record {
  scan_paths = with_source_types cfg.scan_paths;
  install_id = cfg.install_id;
  hostname = cfg.hostname;
  core_url = cfg.core_url;
  api_key = cfg.api_key;
}

-- `cfg.InstallID = id`
unfoldable pub with_install_id : Text → Config → Config
with_install_id id cfg = record {
  scan_paths = cfg.scan_paths;
  install_id = id;
  hostname = cfg.hostname;
  core_url = cfg.core_url;
  api_key = cfg.api_key;
}

module _ (unmarshal : Text → Option Config) (marshal_indent : Config → Option Text) where
  unfoldable pub write_config : Write → Config → Option Text → Bool × Option Text
  unfolding write_file
  write_config writes cfg file = elim (marshal_indent cfg) [
    | none ↦ (false, file)
    | some bytes ↦ write_file writes (bytes ++ 10 ∷ [])
  ]

  -- The configuration, and the file; `none` for a file is one that cannot be read.
  unfoldable pub load_or_init_config : Text → Write → Option Text → Option Config × Option Text
  unfolding with_defaults with_install_id write_config
  load_or_init_config uuid writes file = elim file [
    | none ↦ (none, none)
    | some raw ↦ elim (unmarshal raw) [
      | none ↦ (none, some raw)
      | some decoded ↦
          let cfg = with_defaults decoded in
          if not (cfg.install_id == [])
          then (some cfg, some raw)
          else (let named = with_install_id uuid cfg in
              let (written, file') = write_config writes named (some raw) in
              if written then (some named, file') else (none, file'))
    ]
  ]
