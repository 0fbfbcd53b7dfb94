-- ===== src/Scan/Config.antt =====
-- The configuration that src/Scan/RestScans.ts sends to create a scan; its types are those of
-- src/Scan/Scans.ts. What the service says of a stored file is a parameter.
pub mod Locations
mod Tests
use bright_cli.Prelude.{
  ℕ, Bool, true, false, not, Option, none, some, List, [], ◌∷◌, ◌++◌, map, Text, codes, is_empty,
  Assoc, any, filter_by, if◌then◌else◌, ◌==◌, ◌⊎◌, inl, inr, is_some, ◌||◌,
}

pub data Discovery : Type 0 where
  crawler archive oas : Discovery

pub data SourceType : Type 0 where
  open_api raml postman har : SourceType

pub data AttackParamLocation : Type 0 where
  artifical_fragment artifical_query artificial_fragment artificial_query : AttackParamLocation
  body fragment header path query : AttackParamLocation

unfoldable pub location_id : AttackParamLocation → ℕ
location_id artifical_fragment = 0
location_id artifical_query = 1
location_id artificial_fragment = 2
location_id artificial_query = 3
location_id body = 4
location_id fragment = 5
location_id header = 6
location_id path = 7
location_id query = 8

unfoldable pub location_eq : AttackParamLocation → AttackParamLocation → Bool
location_eq a b = location_id a == location_id b

-- `includes`
unfoldable pub has_location : AttackParamLocation → List AttackParamLocation → Bool
has_location l locations = any (λ x. location_eq x l) locations

abbrev pub default_locations : List AttackParamLocation
default_locations = body ∷ fragment ∷ query ∷ []

pub data ScanModule : Type 0 where
  dast fuzzer : ScanModule

pub record RequestExclusion : Type 0 where
  pub patterns : List Text
  pub methods : List Text

pub record Exclusions : Type 0 where
  pub params : Option (List Text)
  pub requests : Option (List RequestExclusion)

pub record Header : Type 0 where
  pub name : Text
  pub value : Text
  pub merge_strategy : Text

-- The configuration without its headers.
pub record ScanConfig : Type 0 where
  pub name : Text
  pub module_name : ScanModule
  pub auth_object_id : Option Text
  pub project_id : Option Text
  pub template_id : Option Text
  pub discovery_types : Option (List Discovery)
  pub tests : Option (List Text)
  pub buckets : Option (List Text)
  pub pool_size : Option ℕ
  pub file_id : Option Text
  pub attack_param_locations : Option (List AttackParamLocation)
  pub smart : Option Bool
  pub extra_hosts : Option (Assoc Text)
  pub exclusions : Option Exclusions
  pub crawler_urls : Option (List Text)
  pub hosts_filter : Option (List Text)
  pub repeaters : Option (List Text)
  pub entry_point_ids : Option (List Text)

pub record PreparedConfig : Type 0 where
  pub config : ScanConfig
  pub source : Text
  pub client_name : Text
  pub client_version : Text
  pub headers : Option (List Header)

pub data ConfigError : Type 0 where
  no_such_file : ConfigError

-- One `if` of `replaceDeprecatedAttackParamLocations`.
unfoldable pub replace_location :
    AttackParamLocation → AttackParamLocation → List AttackParamLocation → List AttackParamLocation
replace_location deprecated current locations =
    let kept = filter_by (λ l. not (location_eq l deprecated)) locations in
    if has_location deprecated locations
    then (if has_location current kept then kept else kept ++ current ∷ [])
    else locations

abbrev replace_both : List AttackParamLocation → List AttackParamLocation
replace_both locations =
    replace_location artifical_query artificial_query
      (replace_location artifical_fragment artificial_fragment locations)

-- `replaceDeprecatedAttackParamLocations`
unfoldable pub replace_deprecated :
    Option (List AttackParamLocation) → Option (List AttackParamLocation)
replace_deprecated none = none
replace_deprecated (some locations) = some (replace_both locations)

-- A text that is absent or empty is falsy.
abbrev pub given : Option Text → Bool
given none = false
given (some t) = not (is_empty t)

abbrev locations_or_default :
    Option (List AttackParamLocation) → Bool → Option (List AttackParamLocation)
locations_or_default (some locations) template = some locations
locations_or_default none template = if template then none else some default_locations

abbrev used_exclusions : Option Exclusions → Option Exclusions
used_exclusions none = none
used_exclusions (some e) = if is_some e.params || is_some e.requests then some e else none

abbrev file_discovery : SourceType → Discovery
file_discovery har = archive
file_discovery _ = oas

abbrev some_types : List Discovery → Option (List Discovery)
some_types [] = none
some_types (t ∷ ts) = some (t ∷ ts)

module _ (file_type : Text → Option SourceType) where
  abbrev explore_file : Option Text → List Discovery ⊎ ConfigError
  explore_file none = inl []
  explore_file (some id) = if is_empty id then inl [] else elim (file_type id) [
    | none ↦ inr no_such_file
    | some type ↦ inl (file_discovery type ∷ [])
  ]

  -- `exploreDiscovery`
  unfoldable pub explore_discovery : ScanConfig → List Discovery ⊎ ConfigError
  explore_discovery c = elim (explore_file c.file_id) [
    | inl types ↦ inl ((if is_some c.crawler_urls then crawler ∷ [] else []) ++ types)
    | inr e ↦ inr e
  ]

  -- `applyDefaultSettings`
  unfoldable pub apply_default_settings : ScanConfig → ScanConfig ⊎ ConfigError
  apply_default_settings c = elim (explore_discovery c) [
    | inl types ↦ inl (record c {
      attack_param_locations = locations_or_default c.attack_param_locations (given c.template_id);
      discovery_types = some_types types;
      exclusions = used_exclusions c.exclusions;
    })
    | inr e ↦ inr e
  ]

  abbrev header_entries : Option (Assoc Text) → Option (List Header)
  header_entries none = none
  header_entries (some m) =
      some (map (λ e. record { name = e.0; value = e.1; merge_strategy = codes "replace" }) m)

  -- `prepareScanConfig`, for the version of the program
  unfoldable pub prepare_scan_config :
      Text → Option (Assoc Text) → ScanConfig → PreparedConfig ⊎ ConfigError
  prepare_scan_config version headers c = elim (apply_default_settings c) [
    | inl applied ↦ inl (record {
      config = record applied {
        attack_param_locations = replace_deprecated applied.attack_param_locations;
      };
      source = codes "cli";
      client_name = codes "bright-cli";
      client_version = version;
      headers = header_entries headers;
    })
    | inr e ↦ inr e
  ]
