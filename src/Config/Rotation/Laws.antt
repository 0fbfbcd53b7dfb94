-- ===== src/Config/Rotation/Laws.antt =====
-- When the service is asked for the configuration, and what is kept of it.
use bright_cli.Prelude.{
  ℕ, ◌+◌, ◌≤◌, ◌<◌, ◌≡◌, refl, ap, ◌∙◌, Bool, true, false, Option, none, some, List, [], ◌∷◌,
  or_else, arith,
}
use bright_cli.Config.Rotation.{
  SystemConfig, SystemConfigFile, rotation_interval, Disk, default_config_file, get_config_file,
  needs_rotation, update_config_file, renewed, rotate_if_necessary, Round, run_background_rotation,
}

needs_rotation-default :
    (is_production : Bool) (now : ℕ)
    → needs_rotation is_production now (default_config_file now) ≡ false
unfolding needs_rotation default_config_file
needs_rotation-default is_production now = ground arith

-- With no file that can be read, a round does nothing.
rotate-missing :
    (is_production : Bool) (now : ℕ) (fetched : Option SystemConfig) (is_written : Bool)
    → rotate_if_necessary is_production now fetched is_written none
      ≡ record { disk = none; is_rotated = false; has_asked = false }
unfolding rotate_if_necessary get_config_file
rotate-missing is_production now fetched is_written =
    rw (needs_rotation-default is_production now) refl

-- Where the file of the configuration is missing, or cannot be read, no round of the background
-- rotation ever makes one, and none reports a configuration, whatever the service would give.
pub run_background_rotation-missing :
    (is_production : Bool) (rounds : List Round)
    → run_background_rotation is_production rounds none ≡ (none, [])
unfolding run_background_rotation
run_background_rotation-missing is_production [] = refl
run_background_rotation-missing is_production (r ∷ rounds) =
    rw
      (
        rotate-missing is_production r.now r.fetched r.is_written,
        run_background_rotation-missing is_production rounds,
      )
      refl

renewed-kept :
    (now : ℕ) (fetched : Option SystemConfig) (file : SystemConfigFile) (disk : Disk)
    → (renewed true now fetched file disk).disk
      ≡ some (record { config = or_else fetched file.config; updated_at = now })
unfolding update_config_file
renewed-kept now none file disk = refl
renewed-kept now (some config) file disk = refl

renewed-asks :
    (now : ℕ) (fetched : Option SystemConfig) (file : SystemConfigFile) (disk : Disk)
    → (renewed true now fetched file disk).has_asked ≡ true
renewed-asks now none file disk = refl
renewed-asks now (some config) file disk = refl

needs_rotation-old :
    (now : ℕ) (file : SystemConfigFile)
    → file.updated_at + rotation_interval ≤ now
    → needs_rotation true now file ≡ true
unfolding needs_rotation
needs_rotation-old now file h = ground arith

needs_rotation-young :
    (now : ℕ) (file : SystemConfigFile)
    → now < file.updated_at + rotation_interval
    → needs_rotation true now file ≡ false
unfolding needs_rotation
needs_rotation-young now file h = ground arith

rotate-old :
    (now : ℕ) (fetched : Option SystemConfig) (is_written : Bool) (file : SystemConfigFile)
    → file.updated_at + rotation_interval ≤ now
    → rotate_if_necessary true now fetched is_written (some file)
      ≡ renewed is_written now fetched file (some file)
unfolding rotate_if_necessary get_config_file
rotate-old now fetched is_written file h = rw (needs_rotation-old now file h) refl

rotate-young :
    (now : ℕ) (fetched : Option SystemConfig) (is_written : Bool) (file : SystemConfigFile)
    → now < file.updated_at + rotation_interval
    → rotate_if_necessary true now fetched is_written (some file)
      ≡ record { disk = some file; is_rotated = false; has_asked = false }
unfolding rotate_if_necessary get_config_file
rotate-young now fetched is_written file h = rw (needs_rotation-young now file h) refl

-- In production, a stored configuration that is an hour old makes the service be asked. Where the file
-- can be written, it then holds what the service gave, or what it held before if the service
-- gave nothing, and any call less than an hour later does not ask again and keeps it.
pub rotate_if_necessary_lem :
    (file : SystemConfigFile) (now later : ℕ) (fetched again : Option SystemConfig)
    (is_written : Bool)
    → file.updated_at + rotation_interval ≤ now
    → later < now + rotation_interval
    → let first = rotate_if_necessary true now fetched true (some file) in
      let second = rotate_if_necessary true later again is_written first.disk in
      let kept : SystemConfigFile = record {
        config = or_else fetched file.config;
        updated_at = now;
      } in
      (first.has_asked ≡ true)
      × (first.disk ≡ some kept)
      × (second ≡ record { disk = some kept; is_rotated = false; has_asked = false })
rotate_if_necessary_lem file now later fetched again is_written old soon =
    let kept : SystemConfigFile = record {
      config = or_else fetched file.config;
      updated_at = now;
    } in
    let first = rotate-old now fetched true file old in
    let asks = ap (λ r. r.has_asked) first ∙ renewed-asks now fetched file (some file) in
    let disk = ap (λ r. r.disk) first ∙ renewed-kept now fetched file (some file) in
    (
      asks,
      disk,
      ap (rotate_if_necessary true later again is_written) disk
          ∙ rotate-young later again is_written kept soon,
    )
