-- ===== src/RequestExecutor/Http/Tests.antt =====
-- The theorem on response headers at a concrete input.
use bright_cli.Prelude.{List, [], ◌∷◌, codes}
use bright_cli.RequestExecutor.Options.{one, Headers}

abbrev blocks : List Headers
blocks =
    ((codes "Via", one (codes "proxy")) ∷ [])
    ∷ ((codes "result", one (codes "200")) ∷ (codes "Etag", one (codes "1")) ∷ [])
    ∷ []
