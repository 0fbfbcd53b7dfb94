-- ===== src/Commands/RunScan.antt =====
-- src/Commands/RunScan.ts: the coercion of exclusions, the check, the configuration that is made of the
-- arguments, and the handler. JSON, the decoder of header values and the service are parameters.
pub mod Exclusions
use bright_cli.Prelude.{
  distinct, ℕ, Bool, true, false, not, ◌&&◌, ◌||◌, Option, none, some, List, [], ◌∷◌, Text, Assoc,
  is_empty, filter_by, or_else, is_some, join, if◌then◌else◌,
}
use bright_cli.Utils.Backoff.{Settled, fulfilled, rejected}
use bright_cli.Utils.Cluster.{parse_headers}
use bright_cli.Scan.Config.{AttackParamLocation, RequestExclusion, ScanConfig, ScanModule}

-- What JSON reads of an exclusion.
pub record PartialExclusion : Type 0 where
  pub methods : Option (List Text)
  pub patterns : Option (List Text)

-- The coercion throws, ends the process with the code 1, or gives exclusions.
pub data Excluded : Type 0 where
  syntax_error exits_with_1 : Excluded
  excluded : List RequestExclusion → Excluded

-- `args.map((arg) => JSON.parse(arg))`; `none` is that it throws.
abbrev pub parsed_before :
    Option PartialExclusion → Option (List PartialExclusion) → Option (List PartialExclusion)
parsed_before none rest = none
parsed_before (some x) none = none
parsed_before (some x) (some xs) = some (x ∷ xs)

unfoldable pub parse_exclusions :
    (Text → Option PartialExclusion) → List Text → Option (List PartialExclusion)
parse_exclusions parse [] = some []
parse_exclusions parse (arg ∷ args) = parsed_before (parse arg) (parse_exclusions parse args)

abbrev pub non_empty_patterns : PartialExclusion → List Text
non_empty_patterns x = filter_by (λ pattern. not (is_empty pattern)) (or_else x.patterns [])

-- The exclusion of the patterns that are left, before those of the later arguments
abbrev pub excluded_before : List Text → List Text → Excluded → Excluded
excluded_before methods [] rest = exits_with_1
excluded_before methods (pattern ∷ patterns) syntax_error = syntax_error
excluded_before methods (pattern ∷ patterns) exits_with_1 = exits_with_1
excluded_before methods (pattern ∷ patterns) (excluded xs) =
    excluded
      (record { methods = distinct [] methods; patterns = distinct [] (pattern ∷ patterns) } ∷ xs)

unfoldable pub exclude_each : List PartialExclusion → Excluded
exclude_each [] = excluded []
exclude_each (x ∷ xs) =
    excluded_before (or_else x.methods []) (non_empty_patterns x) (exclude_each xs)

abbrev pub exclude_parsed : Option (List PartialExclusion) → Excluded
exclude_parsed none = syntax_error
exclude_parsed (some xs) = exclude_each xs

-- `excludeEntryPoint`
unfoldable pub exclude_entry_point : (Text → Option PartialExclusion) → List Text → Excluded
exclude_entry_point parse args = exclude_parsed (parse_exclusions parse args)

-- The arguments of the handler; `header` is the list of the option.
pub record ScanArguments : Type 0 where
  pub test : Option (List Text)
  pub name : Text
  pub module_name : ScanModule
  pub auth : Option Text
  pub project : Option Text
  pub template : Option Text
  pub bucket : Option (List Text)
  pub host_filter : Option (List Text)
  pub header : Option (List Text)
  pub crawler : Option (List Text)
  pub archive : Option Text
  pub repeater : Option Text
  pub smart : Option Bool
  pub param : Option (List AttackParamLocation)
  pub concurrency : Option ℕ
  pub exclude_entry_point : Option (List RequestExclusion)
  pub exclude_param : Option (List Text)
  pub entrypoint : Option (List Text)

pub data ScanOptionError : Type 0 where
  mutually_exclusive nothing_to_scan : ScanOptionError

-- `check`; an archive that is empty is falsy, and a list is not.
abbrev pub has_archive : Option Text → Bool
has_archive none = false
has_archive (some s) = not (is_empty s)

unfoldable pub check_scan : ScanArguments → Option ScanOptionError
check_scan args =
    if is_some args.entrypoint && (has_archive args.archive && is_some args.crawler)
    then some mutually_exclusive
    else if not (is_some args.entrypoint)
        && (not (has_archive args.archive) && not (is_some args.crawler))
    then some nothing_to_scan
    else none

abbrev pub repeaters_of : Option Text → Option (List Text)
repeaters_of none = none
repeaters_of (some repeater) = if is_empty repeater then none else some (repeater ∷ [])

-- The configuration, without its headers
unfoldable pub scan_config : ScanArguments → ScanConfig
scan_config args = record {
  name = args.name;
  module_name = args.module_name;
  auth_object_id = args.auth;
  project_id = args.project;
  template_id = args.template;
  discovery_types = none;
  tests = args.test;
  buckets = args.bucket;
  pool_size = args.concurrency;
  file_id = args.archive;
  attack_param_locations = args.param;
  smart = args.smart;
  extra_hosts = none;
  exclusions = some (record { params = args.exclude_param; requests = args.exclude_entry_point });
  crawler_urls = args.crawler;
  hosts_filter = args.host_filter;
  repeaters = repeaters_of args.repeater;
  entry_point_ids = args.entrypoint;
}

pub record CreatedScan : Type 0 where
  pub id : Text
  pub messages : List Text

-- What the command prints, what it warns of, and the code of the process.
pub record ScanOutput : Type 0 where
  pub printed : Option Text
  pub warned : Option Text
  pub exits : ℕ

abbrev pub failed_scan : ScanOutput
failed_scan = record { printed = none; warned = none; exits = 1 }

abbrev pub warning_of : List Text → Option Text
warning_of [] = none
warning_of (w ∷ warnings) = some (join (10 ∷ []) (w ∷ warnings))

abbrev pub created : {E : Type 0} → Settled E CreatedScan → ScanOutput
created (rejected e) = failed_scan
created (fulfilled scan) = record {
  printed = some scan.id;
  warned = warning_of scan.messages;
  exits = 0;
}

abbrev pub create_with :
    {E : Type 0}
    → (ScanConfig → Assoc Text → Settled E CreatedScan)
    → ScanConfig
    → Option (Assoc Text)
    → ScanOutput
create_with create config none = failed_scan
create_with create config (some headers) = created (create config headers)

-- `handler`, with `create` of the service; headers that cannot be decoded are an error.
unfoldable pub run_scan :
    {E : Type 0}
    → (Text → Option Text)
    → (ScanConfig → Assoc Text → Settled E CreatedScan)
    → ScanArguments
    → ScanOutput
run_scan decode create args =
    create_with create (scan_config args) (parse_headers decode (or_else args.header []))
