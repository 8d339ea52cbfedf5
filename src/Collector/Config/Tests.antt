-- ===== src/Collector/Config/Tests.antt =====
-- Examples for internal/collector/config.go: each theorem at a concrete input.
use mathlib.Core.Path.{subst}
use my_token.Base.{
  Text, codes, ◌==◌, ◌≡◌, refl, ap, [], ◌∷◌, ◌++◌, Option, none, some, if◌then◌else◌, false,
}
use my_token.Base.Files.{Write, succeeds}
use my_token.Collector.Config.{Config, load_or_init_config}
use my_token.Collector.Config.Loading.{IsComplete, load_or_init_config_again}

abbrev config : Text → Text → Config
config id source_type = record {
  scan_paths = record { path = codes "/t"; name = codes "main"; source_type = source_type } ∷ [];
  install_id = id;
  hostname = [];
  core_url = codes "http://core";
  api_key = codes "tpl_ff";
}

-- A file by hand, and the file as it is written.
abbrev unmarshal : Text → Option Config
unmarshal raw =
    if raw == codes "{}"
    then some (config [] [])
    else if raw == codes "full\n"
    then some (config (codes "i1") (codes "claude_code"))
    else none

abbrev marshal_indent : Config → Option Text
marshal_indent cfg = some (codes "full")

decodes :
    (bytes : Text)
    → marshal_indent (config (codes "i1") (codes "claude_code")) ≡ some bytes
    → unmarshal (bytes ++ 10 ∷ []) ≡ some (config (codes "i1") (codes "claude_code"))
unfolding ◌==◌
decodes bytes e =
    subst (λ b. unmarshal (b ++ 10 ∷ []) ≡ some (config (codes "i1") (codes "claude_code")))
      (ap (λ (o : Option Text). elim o [ none ↦ codes "full" | some b ↦ b ]) e) refl

loads :
    load_or_init_config unmarshal marshal_indent (codes "i1") succeeds (some (codes "{}"))
    ≡ (some (config (codes "i1") (codes "claude_code")), some (codes "full\n"))
unfolding load_or_init_config ◌==◌
loads = refl

filled : (codes "i1" == []) ≡ false
unfolding ◌==◌
filled = refl

load_or_init_config_again_example :
    IsComplete (config (codes "i1") (codes "claude_code"))
    × ((uuid' : Text) (writes' : Write)
        → load_or_init_config unmarshal marshal_indent uuid' writes' (some (codes "full\n"))
          ≡ (some (config (codes "i1") (codes "claude_code")), some (codes "full\n")))
load_or_init_config_again_example =
    load_or_init_config_again unmarshal marshal_indent (codes "i1") succeeds (some (codes "{}"))
      (some (codes "full\n")) (config (codes "i1") (codes "claude_code")) filled decodes loads
