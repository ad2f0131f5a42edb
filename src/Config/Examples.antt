-- ===== src/Config/Examples.antt =====
-- The fixture is a valid source.
use pg_gobench.Base.{codes, ok}
use pg_gobench.Config.Parsed.{IsValidSource, load-IsValidSource}
use pg_gobench.Config.Fixture.{no_env, files, numbers, parsed, document, config_loaded}

load-IsValidSource_example : IsValidSource parsed
load-IsValidSource_example =
    load-IsValidSource no_env files numbers (λ bytes. ok document) (codes "config.yaml") parsed
      config_loaded
