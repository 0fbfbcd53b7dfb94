-- ===== src/Commands/RunRepeater.antt =====
-- src/Commands/RunRepeater.ts: what becomes of the arguments of the command, and its handler. The calls
-- of the launcher succeed or fail as a parameter says.
pub mod Domains
pub mod Handler
use bright_cli.Prelude.{
  ℕ, Bool, true, false, not, ◌||◌, ◌==◌, Option, none, some, List, [], ◌∷◌, Text, codes, any,
  split_at, trim, map, or_else, either, if◌then◌else◌,
}
use bright_cli.RequestExecutor.Certificates.{Cert}
use bright_cli.RequestExecutor.Options.{
  Headers, KerberosOptions, RequestExecutorOptions, WhitelistMimeType,
}

-- The arguments that the middleware and the check read; a value that is not given is `none`, a flag
-- that is not given is false.
pub record Arguments : Type 0 where
  pub id : Text
  pub token : Text
  pub repeater_server : Text
  pub header : Option Headers
  pub headers : Option Headers
  pub timeout : ℕ
  pub proxy : Option Text
  pub proxy_target : Option Text
  pub proxy_bright : Option Text
  pub cert : Option (List Cert)
  pub ntlm : Bool
  pub experimental_connection_reuse : Bool
  pub proxy_domains : Option (List Text)
  pub proxy_domains_bypass : Option (List Text)
  pub kerberos : Bool
  pub kerberos_domains : Option (List Text)
  pub kerberos_credentials : Option Text
  pub kerberos_delegation : Bool
  pub insecure : Bool

-- `arg.includes(c)`, for one code unit
abbrev pub has_code : ℕ → Text → Bool
has_code c s = any (λ d. d == c) s

-- The domains in one value
unfoldable pub domains_in : Text → List Text
domains_in arg = if has_code 32 arg then split_at 32 (trim arg) else arg ∷ []

-- `coerce` of `proxy-domains`; `none` is the list of `undefined`.
unfoldable pub coerce_proxy_domains : Option (List Text) → Option (List Text)
coerce_proxy_domains none = none
coerce_proxy_domains (some []) = none
coerce_proxy_domains (some (arg ∷ [])) = some (domains_in arg)
coerce_proxy_domains (some (arg ∷ next ∷ args)) = some (arg ∷ next ∷ args)

-- `coerce` of `proxy-domains-bypass`
unfoldable pub coerce_proxy_domains_bypass : Option (List Text) → Option (List Text)
coerce_proxy_domains_bypass none = none
coerce_proxy_domains_bypass (some []) = some []
coerce_proxy_domains_bypass (some (arg ∷ [])) = some (domains_in arg)
coerce_proxy_domains_bypass (some (arg ∷ next ∷ args)) = some (arg ∷ next ∷ args)

-- The default of `proxy-domains-bypass`, of the variable NO_PROXY
unfoldable pub default_bypass : Option Text → Option (List Text)
default_bypass none = none
default_bypass (some value) = some (map trim (split_at b',' (trim value)))

pub data OptionError : Type 0 where
  id_is_wrong proxy_domains_is_wrong proxy_domains_bypass_is_wrong : OptionError

-- `check`; `none` is that the arguments pass. The patterns of an ID are parameters.
unfoldable pub check_arguments :
    (is_short_uuid is_uuid : Text → Bool) → Arguments → Option OptionError
check_arguments is_short_uuid is_uuid args =
    if not (is_short_uuid args.id || is_uuid args.id)
    then some id_is_wrong
    else if any (has_code b',') (or_else args.proxy_domains [])
    then some proxy_domains_is_wrong
    else if any (has_code b',') (or_else args.proxy_domains_bypass [])
    then some proxy_domains_bypass_is_wrong
    else none

abbrev whole : Text → WhitelistMimeType
whole type = record { type = type; allow_truncation = false }

abbrev truncated : Text → WhitelistMimeType
truncated type = record { type = type; allow_truncation = true }

abbrev pub repeater_whitelist_mimes : List WhitelistMimeType
repeater_whitelist_mimes =
    whole (codes "text/html")
    ∷ truncated (codes "text/plain")
    ∷ whole (codes "text/css")
    ∷ whole (codes "text/javascript")
    ∷ truncated (codes "text/markdown")
    ∷ whole (codes "text/xml")
    ∷ whole (codes "application/javascript")
    ∷ whole (codes "application/x-javascript")
    ∷ whole (codes "application/json")
    ∷ whole (codes "application/xml")
    ∷ whole (codes "application/x-www-form-urlencoded")
    ∷ whole (codes "application/msgpack")
    ∷ whole (codes "application/ld+json")
    ∷ whole (codes "application/graphql")
    ∷ []

abbrev pub kerberos_of : Arguments → Option KerberosOptions
kerberos_of args =
    if args.kerberos
    then some (record {
      enabled = true;
      domains = args.kerberos_domains;
      credentials = args.kerberos_credentials;
      delegation = args.kerberos_delegation;
    })
    else none

-- The options of the executors, that the middleware registers; a size of `none` is `Infinity`.
unfoldable pub request_executor_options : Arguments → RequestExecutorOptions
request_executor_options args = record {
  timeout = some args.timeout;
  proxy_url = either args.proxy_target args.proxy;
  headers = either args.header args.headers;
  certs = args.cert;
  whitelist_mimes = some repeater_whitelist_mimes;
  max_body_size = none;
  max_content_length = some 100;
  reuse_connection = args.ntlm || args.experimental_connection_reuse;
  proxy_domains = args.proxy_domains;
  proxy_domains_bypass = args.proxy_domains_bypass;
  kerberos = kerberos_of args;
}

-- `DefaultRepeaterServerOptions`
pub record RepeaterServerOptions : Type 0 where
  pub uri : Text
  pub token : Text
  pub connect_timeout : ℕ
  pub proxy_url : Option Text
  pub insecure : Bool

unfoldable pub repeater_server_options : Arguments → RepeaterServerOptions
repeater_server_options args = record {
  uri = args.repeater_server;
  token = args.token;
  connect_timeout = args.timeout;
  proxy_url = either args.proxy_bright args.proxy;
  insecure = args.insecure;
}
