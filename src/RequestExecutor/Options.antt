-- ===== src/RequestExecutor/Options.antt =====
-- src/RequestExecutor/RequestExecutorOptions.ts, and the data of src/RequestExecutor/Request.ts and
-- src/RequestExecutor/Response.ts.
-- A byte string is the list of its bytes; a field that may be absent is an Option.
use bright_cli.Prelude.{ℕ, Bool, Option, List, Text, Assoc}
use bright_cli.RequestExecutor.Certificates.{Cert}

abbrev pub Bytes : Type 0
Bytes = List ℕ

pub data Protocol : Type 0 where
  http ws : Protocol

-- The value of a header: `string | string[]`, or `undefined`.
pub data HeaderValue : Type 0 where
  absent : HeaderValue
  one : Text → HeaderValue
  several : List Text → HeaderValue

abbrev pub Headers : Type 0
Headers = Assoc HeaderValue

pub record Request : Type 0 where
  pub protocol : Protocol
  pub url : Text
  pub method : Text
  pub headers : Headers
  pub body : Option Text
  pub encoding : Option Text
  pub max_content_size : Option ℕ
  pub timeout : Option ℕ
  pub decompress : Bool
  pub ca : Option Bytes
  pub pfx : Option Bytes
  pub passphrase : Option Text

pub record Response : Type 0 where
  pub protocol : Protocol
  pub status_code : Option ℕ
  pub headers : Option Headers
  pub body : Option Text
  pub message : Option Text
  pub error_code : Option Text
  pub encoding : Option Text
  pub ttfb : Option ℕ

pub record WhitelistMimeType : Type 0 where
  pub type : Text
  pub allow_truncation : Bool

pub record KerberosOptions : Type 0 where
  pub enabled : Bool
  pub domains : Option (List Text)
  pub credentials : Option Text
  pub delegation : Bool

pub record RequestExecutorOptions : Type 0 where
  pub timeout : Option ℕ
  pub proxy_url : Option Text
  pub headers : Option Headers
  pub certs : Option (List Cert)
  pub whitelist_mimes : Option (List WhitelistMimeType)
  pub max_body_size : Option ℕ
  pub max_content_length : Option ℕ
  pub reuse_connection : Bool
  pub proxy_domains : Option (List Text)
  pub proxy_domains_bypass : Option (List Text)
  pub kerberos : Option KerberosOptions
