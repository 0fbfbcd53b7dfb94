-- ===== src/Config/Tests.antt =====
-- The theorems on the configuration at concrete inputs.
use bright_cli.Prelude.{◌≡◌, true, false, none, some, List, [], ◌∷◌, codes, arith}
use bright_cli.Config.Rotation.{
  SystemConfig, SystemConfigFile, Round, rotate_if_necessary, run_background_rotation,
}
use bright_cli.Config.Rotation.Laws.{rotate_if_necessary_lem, run_background_rotation-missing}

abbrev config : SystemConfig
config = record { sentry_dsn = some (codes "dsn") }

abbrev stored : SystemConfigFile
stored = record { config = record { sentry_dsn = none }; updated_at = 1000 }

abbrev rounds : List Round
rounds = record { now = 5000000; fetched = some config; is_written = true } ∷ []

run_background_rotation-missing_example : run_background_rotation true rounds none ≡ (none, [])
run_background_rotation-missing_example = run_background_rotation-missing true rounds

rotate_if_necessary_lem_example :
    let first = rotate_if_necessary true 5000000 (some config) true (some stored) in
    let second = rotate_if_necessary true 5000001 none true first.disk in
    let kept : SystemConfigFile = record { config = config; updated_at = 5000000 } in
    (first.has_asked ≡ true)
    × (first.disk ≡ some kept)
    × (second ≡ record { disk = some kept; is_rotated = false; has_asked = false })
rotate_if_necessary_lem_example =
    rotate_if_necessary_lem stored 5000000 5000001 (some config) none true (omega arith)
      (omega arith)
