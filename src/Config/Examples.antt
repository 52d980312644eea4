-- ===== src/Config/Examples.antt =====
-- The theorems on the configuration at the default.
use toppa.Base.{◌≡◌, ◌↔◌}
use toppa.Base.Results.{ok}
use toppa.Config.{default_config, validate}
use toppa.Config.Valid.{IsValid, validate-iff-IsValid}

validate-iff-IsValid_example : (validate default_config ≡ ok tt) ↔ IsValid default_config
validate-iff-IsValid_example = validate-iff-IsValid default_config
