-- ===== src/RequestExecutor/Http.antt =====
-- The object of src/RequestExecutor/HttpRequestExecutor.ts: its constructor, and the choices of a
-- proxy and of Kerberos for a host name.
pub mod Domains
pub mod RawPath
pub mod Curl
pub mod Truncation
pub mod ResponseHeaders
pub mod Runtime
pub mod Execute
pub mod Attempts
mod Tests
use bright_cli.Prelude.{
  ℕ, ◌||◌, Bool, true, false, not, ◌&&◌, Option, none, some, List, [], ◌∷◌, map, Text, any, ◌⊎◌,
  inl, inr, if◌then◌else◌,
}
use bright_cli.Utils.Wildcard.{wildcard_to_reg_exp, reg_exp_test}
use bright_cli.RequestExecutor.Options.{RequestExecutorOptions, KerberosOptions}

-- Domain lists as the sources of their expressions, and the limit of connections to a host that
-- `sharedMulti` has, `none` without one.
pub record HttpRequestExecutor : Type 0 where
  pub options : RequestExecutorOptions
  pub proxy_domains : Option (List Text)
  pub proxy_domains_bypass : Option (List Text)
  pub kerberos_domains : Option (List Text)
  pub shared_multi_limit : Option ℕ

pub data CreateError : Type 0 where
  both_domain_lists : CreateError

-- `list?.length`, as a truth value
abbrev pub has_items : Option (List Text) → Bool
has_items none = false
has_items (some []) = false
has_items (some (x ∷ xs)) = true

abbrev pub reg_exps : Option (List Text) → Option (List Text)
reg_exps none = none
reg_exps (some xs) = some (map wildcard_to_reg_exp xs)

-- `kerberos?.enabled`
abbrev pub kerberos_enabled : Option KerberosOptions → Bool
kerberos_enabled none = false
kerberos_enabled (some k) = k.enabled

abbrev kerberos_reg_exps : Option KerberosOptions → Option (List Text)
kerberos_reg_exps none = none
kerberos_reg_exps (some k) = if k.enabled then reg_exps k.domains else none

abbrev max_host_connections : ℕ
max_host_connections = 100

-- The constructor.
unfoldable pub new_executor : RequestExecutorOptions → HttpRequestExecutor ⊎ CreateError
new_executor o =
    if has_items o.proxy_domains && has_items o.proxy_domains_bypass
    then inr both_domain_lists
    else inl (record {
      options = o;
      proxy_domains = reg_exps o.proxy_domains;
      proxy_domains_bypass = reg_exps o.proxy_domains_bypass;
      kerberos_domains = kerberos_reg_exps o.kerberos;
      shared_multi_limit =
          if o.reuse_connection || kerberos_enabled o.kerberos
          then some max_host_connections
          else none;
    })

-- `domains.some((domain) => domain.test(hostname))`
abbrev pub test_any : List Text → Text → Bool
test_any sources hostname = any (λ source. reg_exp_test source hostname) sources

abbrev outside : Option (List Text) → Text → Bool
outside none hostname = false
outside (some sources) hostname = not (test_any sources hostname)

abbrev inside : Option (List Text) → Text → Bool
inside none hostname = false
inside (some sources) hostname = test_any sources hostname

-- `resolveProxy`, on the host name of the request's URL
unfoldable pub resolve_proxy : HttpRequestExecutor → Text → Option Text
resolve_proxy x hostname =
    if outside x.proxy_domains hostname
    then none
    else if inside x.proxy_domains_bypass hostname
    then none
    else x.options.proxy_url

abbrev within : Option (List Text) → Text → Bool
within none hostname = true
within (some sources) hostname = test_any sources hostname

-- `shouldApplyKerberos`, on the host name of the request's URL
unfoldable pub should_apply_kerberos : HttpRequestExecutor → Text → Bool
should_apply_kerberos x hostname =
    if not (kerberos_enabled x.options.kerberos) then false else within x.kerberos_domains hostname
