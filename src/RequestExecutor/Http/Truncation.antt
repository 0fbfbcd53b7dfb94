-- ===== src/RequestExecutor/Http/Truncation.antt =====
-- `truncateResponse`, `truncateBody` and `responseHasNoBody` of
-- src/RequestExecutor/HttpRequestExecutor.ts. The MIME type of the response is a parameter, as the
-- package that parses it gives it, and the body stays in bytes: its decoding is left out.
use bright_cli.Prelude.{
  ℕ, zero, suc, ◌+◌, ◌*◌, ◌/◌, ◌%◌, ◌≤◌, ◌≡◌, Bool, true, false, ◌&&◌, ◌||◌, Option, none, some,
  List, [], ◌∷◌, reverse, Text, codes, text_eq, starts_with, find_by, erase, insert, lookup,
  lookup-insert_self, length, length-take, take, leb, ltb, ◌==◌, arith, if◌then◌else◌,
}
use bright_cli.RequestExecutor.Options.{
  Bytes, one, Headers, Request, WhitelistMimeType, RequestExecutorOptions,
}

pub data Transform : Type 0 where
  untouched truncated omitted : Transform

-- `truncateBody`
unfoldable pub truncate_body : Bytes → ℕ → Bool → Bytes × Transform
truncate_body body max_size allow = if allow then (take max_size body, truncated) else ([], omitted)

-- A bound in bytes; `none` is a comparison with `undefined` or NaN, which no length exceeds.
abbrev exceeds : Bytes → Option ℕ → Bool
exceeds body none = false
exceeds body (some n) = ltb n (length body)

abbrev first_mime : Option (List WhitelistMimeType) → Text → Option WhitelistMimeType
first_mime none type = none
first_mime (some mimes) type = find_by (λ m. starts_with type m.type) mimes

abbrev kilobytes : Option ℕ → Option ℕ → Option ℕ
kilobytes (some n) d = some (n * 1024)
kilobytes none none = none
kilobytes none (some n) = some (n * 1024)

-- `maxSize`
unfoldable pub max_size : RequestExecutorOptions → Request → Option WhitelistMimeType → Option ℕ
max_size o request (some mime) = o.max_body_size
max_size o request none = kilobytes request.max_content_size o.max_content_length

abbrev may_truncate : Option WhitelistMimeType → Bool
may_truncate none = true
may_truncate (some m) = m.allow_truncation

abbrev cut : Bytes → Option ℕ → Bool → Bytes × Transform
cut body none allow = (body, untouched)
cut body (some n) allow =
    if ltb n (length body) then truncate_body body n allow else (body, untouched)

-- The decimal digits of a number, least first, with fuel for them.
digits_from : ℕ → ℕ → Text
digits_from zero n = []
digits_from (suc fuel) n =
    let rest = digits_from fuel (n / 10) in if ltb n 10 then (48 + n) ∷ [] else (48 + n % 10) ∷ rest

-- `n.toFixed()`; a number has fewer digits than its successor.
unfoldable pub to_fixed : ℕ → Text
unfolding digits_from
to_fixed n = reverse (digits_from (suc n) n)

abbrev drop_encoding : Bool → Headers → Headers
drop_encoding decompress headers =
    if decompress then erase (codes "content-encoding") headers else headers

-- `truncateResponse`, given the MIME type that is parsed from the headers: the body before it is
-- decoded, what became of it, and the headers.
unfoldable pub truncate_response :
    RequestExecutorOptions → Request → Text → Bytes → Headers → Bytes × Transform × Headers
unfolding truncate_body
truncate_response o request type raw_body headers =
    let mime = first_mime o.whitelist_mimes type in
    let (body, transform) = cut raw_body (max_size o request mime) (may_truncate mime) in
    (
      body,
      transform,
      insert (codes "content-length") (one (to_fixed (length body)))
          (drop_encoding request.decompress headers),
    )

-- `responseHasNoBody`
unfoldable pub response_has_no_body : Text → ℕ → Bool
response_has_no_body method status_code =
    text_eq method (codes "HEAD")
    || (leb 100 status_code && ltb status_code 200)
    || status_code == 204
    || status_code == 304

cut_bounds :
    (body : Bytes) (n : ℕ) (allow : Bool)
    → (length (cut body (some n) allow).0 ≤ n)
      × ((cut body (some n) allow).0
          ≡ (if ltb n (length body) then if allow then take n body else [] else body))
unfolding truncate_body
cut_bounds body n allow = (ground (arith, length-take n body), ground arith)

-- Where there is a greatest size, the body that is kept is no larger: a body within that size is
-- kept whole, and a larger one is cut to that size, or dropped if its MIME type is listed as not to
-- be truncated. The content-length header gives the length of what is kept.
pub truncate_response_bounds :
    (o : RequestExecutorOptions) (request : Request) (type : Text) (body : Bytes)
    (headers : Headers) (n : ℕ)
    → max_size o request (first_mime o.whitelist_mimes type) ≡ some n
    → let (kept, transform, headers') = truncate_response o request type body headers in
      (length kept ≤ n)
      × (kept ≡ (
          if ltb n (length body)
          then if may_truncate (first_mime o.whitelist_mimes type) then take n body else []
          else body))
      × (lookup (codes "content-length") headers' ≡ some (one (to_fixed (length kept))))
unfolding truncate_response
truncate_response_bounds o request type body headers n h =
    let (bound, kept) = cut_bounds body n (may_truncate (first_mime o.whitelist_mimes type)) in
    rw h (
      bound,
      kept,
      lookup-insert_self (codes "content-length") _ (drop_encoding request.decompress headers),
    )
