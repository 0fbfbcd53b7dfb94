-- ===== src/RequestExecutor/Certificates/Laws.antt =====
-- Which certificates a request is tried with.
use bright_cli.Prelude.{
  ◌≡◌, ◌≢◌, refl, sym, ap, ◌∙◌, false, codes, ◌↔◌, ◌⊎◌, inl, inr, Bool, true, ◌||◌, Option, none,
  some, List, [], ◌∷◌, Text, text_eq, text_eq_iff, is_empty, lookup-insert, filter_by, Bool-cases,
  arith,
}
use bright_cli.Utils.Wildcard.{wildcard_test}
use bright_cli.Utils.Wildcard.Globs.{Globs}
use bright_cli.Utils.Wildcard.Laws.{wildcard_test_iff}
use bright_cli.RequestExecutor.Url.{Url, port_from_url}
use bright_cli.RequestExecutor.Certificates.{
  Cert, Cache, cache_key, add, get, port_matches, match_hostname_and_port, resolve,
}

-- The port that a URL is for: the one it names, or the default of http: and https:. A URL of another
-- scheme that names none is for no port.
pub data IsPortOf : Url → Text → Type 0 where
  named : {url : Url} → is_empty url.port ≡ false → IsPortOf url url.port
  http_default :
      {url : Url} → url.port ≡ [] → url.protocol ≡ codes "http:" → IsPortOf url (codes "80")
  https_default :
      {url : Url} → url.port ≡ [] → url.protocol ≡ codes "https:" → IsPortOf url (codes "443")

-- The certificate is meant for the URL: its host is the name or a wildcard for it, and it names no port
-- or the one that the URL is for.
abbrev pub IsMeantFor : Url → Cert → Type 0
IsMeantFor url cert =
    ((cert.hostname ≡ url.hostname) ⊎ Globs cert.hostname url.hostname)
    × ((cert.port ≡ none)
        ⊎ ((cert.port ≡ some []) ⊎ ((port : Text) × (cert.port ≡ some port) × IsPortOf url port)))

is_empty_lem : (t : Text) → is_empty t ≡ true → t ≡ []
is_empty_lem [] h = refl
is_empty_lem (c ∷ t) h = cc

port_iff :
    (o : Option Text) (port : Text)
    → (port_matches o port ≡ true) ↔ ((o ≡ none) ⊎ ((o ≡ some []) ⊎ (o ≡ some port)))
port_iff none port = ground arith
port_iff (some []) port = ground arith
port_iff (some (c ∷ p)) port = ground (arith, text_eq_iff (c ∷ p) port)

host_iff :
    (pattern hostname : Text)
    → (text_eq pattern hostname || wildcard_test pattern hostname ≡ true)
      ↔ ((pattern ≡ hostname) ⊎ Globs pattern hostname)
host_iff pattern hostname = (to, from)
  where
    to :
        text_eq pattern hostname || wildcard_test pattern hostname ≡ true
        → (pattern ≡ hostname) ⊎ Globs pattern hostname
    to h = elim (Bool-cases (text_eq pattern hostname)) [
      | inl same ↦ inl ((text_eq_iff pattern hostname).0 same)
      | inr other ↦ inr ((wildcard_test_iff pattern hostname).0 (ground arith))
    ]

    from :
        (pattern ≡ hostname) ⊎ Globs pattern hostname
        → text_eq pattern hostname || wildcard_test pattern hostname ≡ true
    from (inl e) = ground (arith, text_eq_iff pattern hostname)
    from (inr g) = ground (arith, (wildcard_test_iff pattern hostname).1 g)

-- The port of the code is the one that the URL is for, or empty.
port_from_url-IsPortOf : (url : Url) → (port_from_url url ≡ []) ⊎ IsPortOf url (port_from_url url)
unfolding port_from_url
port_from_url-IsPortOf url = elim (Bool-cases (is_empty url.port)) [
  | inr given ↦ rw given (inr (named given))
  | inl empty ↦ rw empty (elim (Bool-cases (text_eq url.protocol (codes "http:"))) [
    | inl plain ↦ rw plain (
        inr (
          http_default (is_empty_lem url.port empty)
            ((text_eq_iff url.protocol (codes "http:")).0 plain)))
    | inr other ↦ rw other (elim (Bool-cases (text_eq url.protocol (codes "https:"))) [
      | inl secure ↦ rw secure (
          inr (
            https_default (is_empty_lem url.port empty)
              ((text_eq_iff url.protocol (codes "https:")).0 secure)))
      | inr none_of_them ↦ rw none_of_them (inl refl)
    ])
  ])
]

IsPortOf-port_from_url : {url : Url} {port : Text} → IsPortOf url port → port_from_url url ≡ port
unfolding port_from_url text_eq
IsPortOf-port_from_url (named given) = rw given refl
IsPortOf-port_from_url (http_default {url = url} empty plain) = rw empty (rw plain refl)
IsPortOf-port_from_url (https_default {url = url} empty secure) = rw empty (rw secure refl)

meant_port_iff :
    (url : Url) (o : Option Text)
    → ((o ≡ none) ⊎ ((o ≡ some []) ⊎ (o ≡ some (port_from_url url))))
      ↔ ((o ≡ none) ⊎ ((o ≡ some []) ⊎ ((port : Text) × (o ≡ some port) × IsPortOf url port)))
meant_port_iff url o = (to, from)
  where
    to :
        ((o ≡ none) ⊎ ((o ≡ some []) ⊎ (o ≡ some (port_from_url url))))
        → (o ≡ none) ⊎ ((o ≡ some []) ⊎ ((port : Text) × (o ≡ some port) × IsPortOf url port))
    to (inl h) = inl h
    to (inr (inl h)) = inr (inl h)
    to (inr (inr h)) = elim (port_from_url-IsPortOf url) [
      | inl empty ↦ inr (inl (h ∙ ap (λ t. some t) empty))
      | inr is ↦ inr (inr (port_from_url url, h, is))
    ]

    from :
        ((o ≡ none) ⊎ ((o ≡ some []) ⊎ ((port : Text) × (o ≡ some port) × IsPortOf url port)))
        → (o ≡ none) ⊎ ((o ≡ some []) ⊎ (o ≡ some (port_from_url url)))
    from (inl h) = inl h
    from (inr (inl h)) = inr (inl h)
    from (inr (inr (port, h, is))) =
        inr (inr (h ∙ ap (λ t. some t) (sym (IsPortOf-port_from_url is))))

match_iff :
    (url : Url) (cert : Cert)
    → (match_hostname_and_port url.hostname (port_from_url url) cert ≡ true) ↔ IsMeantFor url cert
unfolding match_hostname_and_port
match_iff url cert = (to, from)
  where
    to : match_hostname_and_port url.hostname (port_from_url url) cert ≡ true → IsMeantFor url cert
    to h = (
      (host_iff cert.hostname url.hostname).0 (ground arith),
      (meant_port_iff url cert.port).0 ((port_iff cert.port (port_from_url url)).0 (ground arith)),
    )

    from :
        IsMeantFor url cert → match_hostname_and_port url.hostname (port_from_url url) cert ≡ true
    from (h, p) =
        rw ((host_iff cert.hostname url.hostname).1 h)
          ((port_iff cert.port (port_from_url url)).1 ((meant_port_iff url cert.port).1 p))

-- The list keeps those elements of the other that pass the test, in their order.
pub data Keeps {A : Type 0} (P : A → Type 0) : List A → List A → Type 0 where
  done : Keeps P [] []
  kept : {x : A} {xs ys : List A} → P x → Keeps P xs ys → Keeps P (x ∷ xs) (x ∷ ys)
  dropped : {x : A} {xs ys : List A} → ¬ P x → Keeps P xs ys → Keeps P (x ∷ xs) ys

filter_by-Keeps :
    {A : Type 0} {P : A → Type 0} (test : A → Bool)
    → ((x : A) → (test x ≡ true) ↔ P x)
    → (xs : List A) → Keeps P xs (filter_by test xs)
filter_by-Keeps test iff [] = done
filter_by-Keeps test iff (x ∷ xs) = elim (Bool-cases (test x)) [
  | inl hit ↦ rw hit (kept ((iff x).0 hit) (filter_by-Keeps test iff xs))
  | inr miss ↦ rw miss (dropped (λ p. cc ((iff x).1 p, miss)) (filter_by-Keeps test iff xs))
]

-- With nothing cached for the origin of the URL, a request is tried with exactly the registered
-- certificates whose host is that of the URL, or a wildcard for it, and which name no port, the port
-- that the URL names, or, where it names none, 80 for http: and 443 for https:, in the order of
-- registration. For a URL of another scheme, as wss:, that names no port, none that names a port is
-- tried.
pub resolve_registered :
    (url : Url) (registered : List Cert) (cache : Cache)
    → get url cache ≡ none
    → Keeps (IsMeantFor url) registered (resolve url registered cache)
unfolding resolve
resolve_registered url registered cache h = rw h (
    filter_by-Keeps (match_hostname_and_port url.hostname (port_from_url url)) (match_iff url)
      registered)

-- Once a certificate has served an origin, every later request to that origin is tried with that
-- one alone, whatever others serve it afterwards.
pub resolve-add :
    (url other : Url) (first second : Cert) (registered : List Cert) (cache : Cache)
    → cache_key other ≡ cache_key url
    → get url cache ≡ none
    → resolve other registered (add other second (add url first cache)) ≡ first ∷ []
unfolding resolve add get
resolve-add url other first second registered cache same h = ground (
  arith,
  lookup-insert (cache_key url) (cache_key other) first cache,
  text_eq_iff (cache_key other) (cache_key url),
)

-- A certificate that serves one origin changes nothing for another.
pub resolve-add_ne :
    (url other : Url) (cert : Cert) (registered : List Cert) (cache : Cache)
    → cache_key other ≢ cache_key url
    → resolve other registered (add url cert cache) ≡ resolve other registered cache
unfolding resolve add get
resolve-add_ne url other cert registered cache n = ground (
  arith,
  lookup-insert (cache_key url) (cache_key other) cert cache,
  text_eq_iff (cache_key other) (cache_key url),
)
