-- ===== src/RequestExecutor/Http/Runtime.antt =====
-- What src/RequestExecutor/HttpRequestExecutor.ts takes of other packages: the parsers, the decoders,
-- the context of the scripts of src/Scripts/VirtualScript.ts, and what a transfer of curl gives.
use bright_cli.Prelude.{ℕ, Option, none, some, List, Text, ◌⊎◌, inl, inr}
use bright_cli.Scripts.{VirtualScript}
use bright_cli.RequestExecutor.Url.{Url}
use bright_cli.RequestExecutor.Options.{Bytes, Headers, Protocol}
use bright_cli.RequestExecutor.Request.{RequestOptions}
use bright_cli.RequestExecutor.Http.Curl.{Platform}

-- What the handler of errors reads of an object that is thrown, and of its cause.
pub record ErrorFields : Type 0 where
  pub message : Option Text
  pub code : Option Text
  pub syscall : Option Text
  pub name : Option Text

pub record Failure : Type 0 where
  pub own : ErrorFields
  pub cause : Option ErrorFields

abbrev pub error_named : Text → Text → Failure
error_named message name = record {
  own = record { message = some message; code = none; syscall = none; name = some name };
  cause = none;
}

abbrev pub Result : Type 0 → Type 0
Result A = A ⊎ Failure

abbrev pub bind : {A B : Type 0} → Result A → (A → Result B) → Result B
bind (inl a) f = f a
bind (inr e) f = inr e

-- The options of a script that handles a response, and what it may give back.
pub record ResponseView : Type 0 where
  pub protocol : Protocol
  pub status_code : Option ℕ
  pub headers : Option Headers
  pub body : Option Text

-- The functions that a script exports, by name.
pub record Exports : Type 0 where
  pub handle_function : Option (RequestOptions → Result RequestOptions)
  pub on_response : Option (ResponseView → Result (Option ResponseView))

-- `run_script` runs the code of a script in its context. `content_type` is `parseContentType`, `decode`
-- is `iconv.decode`, and `as_text` is a buffer turned to text of UTF-8 and back.
pub record HttpRuntime : Type 0 where
  pub platform : Platform
  pub parse : Text → Option Url
  pub run_script : VirtualScript → Result Exports
  pub content_type : Headers → Text × Text
  pub decode : Bytes → Text → Text
  pub as_text : Bytes → Bytes

-- What curl reports at the end of a transfer; the time is in microseconds.
pub record Received : Type 0 where
  pub status_code : ℕ
  pub raw_body : Bytes
  pub raw_headers : List Headers
  pub starttransfer_time : ℕ
