-- ===== src/Scan/Config/Tests.antt =====
-- The theorem on attack locations at a concrete input.
use bright_cli.Prelude.{◌≡◌, false, ◌&&◌, ◌||◌, some, List, [], ◌∷◌, if◌then◌else◌}
use bright_cli.Scan.Config.{
  AttackParamLocation, artifical_fragment, artifical_query, artificial_fragment, artificial_query,
  body, location_eq, has_location, replace_deprecated,
}
use bright_cli.Scan.Config.Locations.{replace_deprecated_lem}

abbrev asked : List AttackParamLocation
asked = artifical_query ∷ body ∷ []

replace_deprecated_lem_example :
    (after : List AttackParamLocation) × (replace_deprecated (some asked) ≡ some after)
    × (has_location artificial_query after ≡ (
        if location_eq artificial_query artifical_fragment
          || location_eq artificial_query artifical_query
        then false
        else has_location artificial_query asked
          || ((location_eq artificial_query artificial_fragment
                && has_location artifical_fragment asked)
              || (location_eq artificial_query artificial_query
                  && has_location artifical_query asked))))
replace_deprecated_lem_example = replace_deprecated_lem artificial_query asked
