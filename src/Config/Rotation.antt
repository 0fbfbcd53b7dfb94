-- ===== src/Config/Rotation.antt =====
-- src/Config/SystemConfigManager.ts: the configuration that the service gives, in a file that is
-- renewed. Times are in milliseconds, a file that is missing or cannot be read or parsed is `none`,
-- one whose date is not valid, which is never renewed, is left out,
-- and the answers of the service and of the file system are parameters.
pub mod Laws
use bright_cli.Prelude.{
  ℕ, ◌+◌, ◌-◌, ◌*◌, Bool, true, false, ◌&&◌, Option, none, some, List, [], ◌∷◌, ◌++◌, Text, either,
  or_else, leb, if◌then◌else◌,
}

pub record SystemConfig : Type 0 where
  pub sentry_dsn : Option Text

pub record SystemConfigFile : Type 0 where
  pub config : SystemConfig
  pub updated_at : ℕ

abbrev pub rotation_interval : ℕ
rotation_interval = 3600000

abbrev pub Disk : Type 0
Disk = Option SystemConfigFile

-- What `rotateIfNecessary` leaves and returns, and whether it has asked the service.
pub record Rotation : Type 0 where
  pub disk : Disk
  pub is_rotated : Bool
  pub has_asked : Bool

unfoldable pub default_config_file : ℕ → SystemConfigFile
default_config_file now = record { config = record { sentry_dsn = none }; updated_at = now }

unfoldable pub get_config_file : ℕ → Disk → SystemConfigFile
get_config_file now disk = or_else disk (default_config_file now)

unfoldable pub needs_rotation : Bool → ℕ → SystemConfigFile → Bool
needs_rotation is_production now file =
    if is_production then leb rotation_interval (now - file.updated_at) else false

-- `updateConfigFile`, which may fail to write
unfoldable pub update_config_file : Bool → SystemConfigFile → Disk → Disk
update_config_file is_written file disk = if is_written then some file else disk

abbrev pub renewed : Bool → ℕ → Option SystemConfig → SystemConfigFile → Disk → Rotation
renewed is_written now none file disk = record {
  disk = update_config_file is_written (record file { updated_at = now }) disk;
  is_rotated = false;
  has_asked = true;
}
renewed is_written now (some new_config) file disk = record {
  disk = update_config_file is_written (record { config = new_config; updated_at = now }) disk;
  is_rotated = true;
  has_asked = true;
}

-- `rotateIfNecessary`, where `fetched` is what `fetchNewConfig` gives
unfoldable pub rotate_if_necessary : Bool → ℕ → Option SystemConfig → Bool → Disk → Rotation
rotate_if_necessary is_production now fetched is_written disk =
    let file = get_config_file now disk in
    if needs_rotation is_production now file
    then renewed is_written now fetched file disk
    else record { disk = disk; is_rotated = false; has_asked = false }

-- `read`, with the DSN of the environment
unfoldable pub read : Option Text → Bool → ℕ → Option SystemConfig → Bool → Disk → SystemConfig
read dsn is_production now fetched is_written disk =
    let rotation = rotate_if_necessary is_production now fetched is_written disk in
    record { sentry_dsn = either (get_config_file now rotation.disk).config.sentry_dsn dsn }

-- A round of `runBackgroundRotation`: its time, what the service gives, and whether the file is written.
pub record Round : Type 0 where
  pub now : ℕ
  pub fetched : Option SystemConfig
  pub is_written : Bool

abbrev reported : Bool → ℕ → Disk → List SystemConfig
reported true now disk = (get_config_file now disk).config ∷ []
reported false now disk = []

-- `runBackgroundRotation`, for the rounds until it is disabled, with what it reports
unfoldable pub run_background_rotation : Bool → List Round → Disk → Disk × List SystemConfig
run_background_rotation is_production [] disk = (disk, [])
run_background_rotation is_production (r ∷ rounds) disk =
    let rotation = rotate_if_necessary is_production r.now r.fetched r.is_written disk in
    let (end, later) = run_background_rotation is_production rounds rotation.disk in
    (end, reported rotation.is_rotated r.now rotation.disk ++ later)
