-- ===== src/RequestExecutor/Url.antt =====
-- The parts of a parsed URL that the program reads, and `portFromURL` of src/Utils/Helpers.ts.
-- The parser of the platform is a parameter wherever a URL is parsed.
use bright_cli.Prelude.{[], Text, codes, text_eq, is_empty, if◌then◌else◌}

-- `port` is empty where the URL names none or the default one of http: or https:.
pub record Url : Type 0 where
  pub protocol : Text
  pub hostname : Text
  pub port : Text

-- `url.port || (…)`
unfoldable pub port_from_url : Url → Text
port_from_url url =
    if is_empty url.port
    then (if text_eq url.protocol (codes "http:")
        then codes "80"
        else if text_eq url.protocol (codes "https:")
        then codes "443"
        else [])
    else url.port
