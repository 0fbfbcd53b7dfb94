-- ===== src/Scan/Config/Locations.antt =====
-- What becomes of the attack locations of a configuration.
use bright_cli.Prelude.{
  ◌≡◌, refl, ◌∙◌, Bool, true, false, not, ◌&&◌, ◌||◌, some, List, [], ◌∷◌, ◌++◌, filter_by, arith,
  if◌then◌else◌,
}
use bright_cli.Scan.Config.{
  AttackParamLocation, artifical_fragment, artifical_query, artificial_fragment, artificial_query,
  body, fragment, header, path, query, location_id, location_eq, has_location, replace_location,
  replace_both, replace_deprecated,
}

location_eq_lem :
    (x l old : AttackParamLocation) → location_eq x l ≡ true → location_eq x old ≡ location_eq l old
unfolding location_eq
location_eq_lem x l old h = ground arith

location_eq-sym : (x l : AttackParamLocation) → location_eq x l ≡ location_eq l x
unfolding location_eq
location_eq-sym x l = ground arith

has_location-filter_by :
    (l old : AttackParamLocation) (locations : List AttackParamLocation)
    → has_location l (filter_by (λ x. not (location_eq x old)) locations)
      ≡ (if location_eq l old then false else has_location l locations)
unfolding has_location
has_location-filter_by l old [] = ground arith
has_location-filter_by l old (x ∷ locations) =
    ground (arith, has_location-filter_by l old locations, location_eq_lem x l old)

has_location-append :
    (l new : AttackParamLocation) (locations : List AttackParamLocation)
    → has_location l (locations ++ new ∷ []) ≡ has_location l locations || location_eq new l
unfolding has_location
has_location-append l new [] = ground arith
has_location-append l new (x ∷ locations) = ground (arith, has_location-append l new locations)

has_location_of_eq :
    (l new : AttackParamLocation) (locations : List AttackParamLocation)
    → location_eq new l ≡ true
    → has_location l locations ≡ has_location new locations
unfolding has_location
has_location_of_eq l new [] h = refl
has_location_of_eq l new (x ∷ locations) h = ground (
  arith,
  has_location_of_eq l new locations h,
  location_eq_lem new l x h,
  location_eq-sym x new,
  location_eq-sym x l,
)

-- One replacement: the deprecated location is gone, and its successor is there if either was.
has_location-replace_location :
    (l old new : AttackParamLocation) (locations : List AttackParamLocation)
    → location_eq new old ≡ false
    → has_location l (replace_location old new locations) ≡ (
        if location_eq l old
        then false
        else has_location l locations || (location_eq new l && has_location old locations))
unfolding replace_location
has_location-replace_location l old new locations n = ground (
  arith,
  has_location-filter_by l old locations,
  has_location-filter_by new old locations,
  has_location-append l new (filter_by (λ x. not (location_eq x old)) locations),
  has_location_of_eq l new locations,
  has_location_of_eq l old locations,
  location_eq-sym l old,
  location_eq_lem new l old,
)

apart :
    (location_eq artificial_fragment artifical_fragment ≡ false)
    × (location_eq artificial_query artifical_query ≡ false)
unfolding location_eq location_id
apart = (refl, refl)

-- Both replacements together, where `given` says whether the location was there, and the others
-- whether the deprecated ones were.
both_replaced :
    (l : AttackParamLocation) (given old_fragment old_query : Bool)
    → (if location_eq l artifical_query
        then false
        else (if location_eq l artifical_fragment
            then false
            else given || (location_eq artificial_fragment l && old_fragment))
          || (location_eq artificial_query l
              && (if location_eq artifical_query artifical_fragment
                  then false
                  else old_query
                    || (location_eq artificial_fragment artifical_query && old_fragment))))
      ≡ (if location_eq l artifical_fragment || location_eq l artifical_query
          then false
          else given
            || ((location_eq l artificial_fragment && old_fragment)
                || (location_eq l artificial_query && old_query)))
unfolding location_eq location_id
both_replaced artifical_fragment given old_fragment old_query = ground arith
both_replaced artifical_query given old_fragment old_query = ground arith
both_replaced artificial_fragment given old_fragment old_query = ground arith
both_replaced artificial_query given old_fragment old_query = ground arith
both_replaced body given old_fragment old_query = ground arith
both_replaced fragment given old_fragment old_query = ground arith
both_replaced header given old_fragment old_query = ground arith
both_replaced path given old_fragment old_query = ground arith
both_replaced query given old_fragment old_query = ground arith

-- No deprecated location is left; the location that succeeds one is there exactly if it or the
-- deprecated one was given, and every other exactly if it was given.
pub replace_deprecated_lem :
    (l : AttackParamLocation) (locations : List AttackParamLocation)
    → (after : List AttackParamLocation) × (replace_deprecated (some locations) ≡ some after)
      × (has_location l after ≡ (
          if location_eq l artifical_fragment || location_eq l artifical_query
          then false
          else has_location l locations
            || ((location_eq l artificial_fragment && has_location artifical_fragment locations)
                || (location_eq l artificial_query && has_location artifical_query locations))))
unfolding replace_deprecated
replace_deprecated_lem l locations = (
  replace_both locations,
  refl,
  let fragments =
        has_location-replace_location l artifical_fragment artificial_fragment locations apart.0 in
      let queries =
        has_location-replace_location artifical_query artifical_fragment artificial_fragment
          locations apart.0 in
      has_location-replace_location l artifical_query artificial_query
        (replace_location artifical_fragment artificial_fragment locations) apart.1
      ∙ rw (fragments, queries)
          (both_replaced l (has_location l locations) (has_location artifical_fragment locations)
            (has_location artifical_query locations)),
)
