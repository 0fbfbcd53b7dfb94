-- ===== src/RequestExecutor/Http/RawPath.antt =====
-- `buildRawPath` of src/RequestExecutor/HttpRequestExecutor.ts.
use bright_cli.Prelude.{
  ℕ, ◌≡◌, ◌≢◌, refl, Bool, true, false, ◌||◌, Option, none, some, [], ◌∷◌, ◌++◌, Text, codes,
  starts_with, or_else, drop, All, arith, ◌==◌, if◌then◌else◌,
}

-- What follows the first `://`, `url.slice(separatorIndex + 3)`.
unfoldable pub after_scheme : Text → Option Text
unfolding starts_with
after_scheme [] = none
after_scheme (c ∷ s) = if starts_with (c ∷ s) (codes "://") then some (drop 2 s) else after_scheme s

-- `/[/?#]/`
abbrev pub is_path_start : ℕ → Bool
is_path_start c = c == b'/' || c == b'?' || c == b'#'

-- The text from the first of these on.
unfoldable pub from_path : Text → Text
from_path [] = []
from_path (c ∷ s) = if is_path_start c then c ∷ s else from_path s

-- A path that begins with a slash.
abbrev pub with_slash : Text → Text
with_slash [] = b'/' ∷ []
with_slash (c ∷ s) = if c == b'/' then c ∷ s else b'/' ∷ c ∷ s

unfoldable pub build_raw_path : Text → Text
unfolding after_scheme from_path
build_raw_path url = with_slash (from_path (or_else (after_scheme url) url))

abbrev pub HasNoColon : Text → Type 0
HasNoColon s = All (λ c. c ≢ b':') s

-- A host with its port and credentials, as a URL holds it.
abbrev pub IsAuthority : Text → Type 0
IsAuthority s = All (λ c. is_path_start c ≡ false) s

-- Empty, or begun by a slash, a question mark or a number sign.
abbrev pub IsTarget : Text → Type 0
IsTarget [] = Unit
IsTarget (c ∷ s) = is_path_start c ≡ true

after_scheme_lem :
    (scheme s : Text)
    → HasNoColon scheme
    → after_scheme (scheme ++ (b':' ∷ b'/' ∷ b'/' ∷ s)) ≡ some s
unfolding after_scheme
after_scheme_lem [] s h = refl
after_scheme_lem (c ∷ scheme) s (n, h) = ground (arith, after_scheme_lem scheme s h)

from_path_lem :
    (authority target : Text)
    → IsAuthority authority
    → IsTarget target
    → from_path (authority ++ target) ≡ target
unfolding from_path
from_path_lem [] [] h t = refl
from_path_lem [] (c ∷ target) h t = ground arith
from_path_lem (c ∷ authority) target (n, h) t = rw n (from_path_lem authority target h t)

-- What is sent as the target of a request is all that follows the authority in its URL, code unit
-- for code unit, with a slash in front if it has none.
pub build_raw_path_lem :
    (scheme authority target : Text)
    → HasNoColon scheme
    → IsAuthority authority
    → IsTarget target
    → build_raw_path (scheme ++ (b':' ∷ b'/' ∷ b'/' ∷ (authority ++ target))) ≡ with_slash target
unfolding build_raw_path
build_raw_path_lem scheme authority target h a t =
    rw (after_scheme_lem scheme (authority ++ target) h, from_path_lem authority target a t)
