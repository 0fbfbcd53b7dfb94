-- ===== src/Utils/Proxy.antt =====
-- src/Utils/DefaultProxyFactory.ts: which agents of the packages for proxies are made for a URL. What
-- the parser of URLs gives is the protocol of one, with its colon.
use bright_cli.Prelude.{
  ◌≡◌, refl, Bool, true, Option, none, some, List, [], ◌∷◌, Text, codes, text_eq, includes, ◌⊎◌,
  inl, inr, if◌then◌else◌, filter_by, not, ◌==◌,
}

-- A new agent for the URL of a proxy, and whether it rejects certificates that are not authorized.
pub data ProxyAgent : Type 0 where
  patched_https_agent : Text → Bool → ProxyAgent
  http_agent : Text → Bool → ProxyAgent
  socks_agent : Text → ProxyAgent

pub record Proxies : Type 0 where
  pub http_proxy : ProxyAgent
  pub https_proxy : ProxyAgent

-- The errors, by what their messages name.
pub data ProxyError : Type 0 where
  invalid_proxy_url : Text → ProxyError
  unsupported_proxy_protocol : Text → ProxyError
  invalid_target_url : Text → ProxyError
  proxy_not_supported : Text → ProxyError

unfoldable pub create_http_proxy : Text → Bool → Proxies
create_http_proxy proxy_url reject = record {
  http_proxy = http_agent proxy_url reject;
  https_proxy = patched_https_agent proxy_url reject;
}

unfoldable pub create_socks_proxy : Text → Proxies
create_socks_proxy proxy_url = record {
  http_proxy = socks_agent proxy_url;
  https_proxy = socks_agent proxy_url;
}

abbrev http_protocols : List Text
http_protocols = codes "http:" ∷ codes "https:" ∷ []

abbrev socks_protocols : List Text
socks_protocols =
    codes "socks:" ∷ codes "socks4:" ∷ codes "socks4a:" ∷ codes "socks5:" ∷ codes "socks5h:" ∷ []

-- `protocol.replace(':', '')`, of a protocol, which has one colon
abbrev without_colon : Text → Text
without_colon protocol = filter_by (λ c. not (c == b':')) protocol

abbrev proxies_for : Text → Bool → Text → Proxies ⊎ ProxyError
proxies_for proxy_url reject protocol =
    if includes http_protocols protocol
    then inl (create_http_proxy proxy_url reject)
    else if includes socks_protocols protocol
    then inl (create_socks_proxy proxy_url)
    else inr (unsupported_proxy_protocol (without_colon protocol))

abbrev agent_for : Proxies → Text → ProxyAgent ⊎ ProxyError
agent_for proxies protocol =
    if includes (codes "http:" ∷ codes "ws:" ∷ []) protocol
    then inl proxies.http_proxy
    else if includes (codes "https:" ∷ codes "wss:" ∷ []) protocol
    then inl proxies.https_proxy
    else inr (proxy_not_supported protocol)

module _ (protocol_of : Text → Option Text) where
  unfoldable pub create_proxy : Text → Bool → Proxies ⊎ ProxyError
  create_proxy proxy_url reject = elim (protocol_of proxy_url) [
    | none ↦ inr (invalid_proxy_url proxy_url)
    | some protocol ↦ proxies_for proxy_url reject protocol
  ]

  -- `createProxyForClient`
  unfoldable pub create_proxy_for_client : Text → Text → Bool → ProxyAgent ⊎ ProxyError
  create_proxy_for_client target_url proxy_url reject = elim (create_proxy proxy_url reject) [
    | inr e ↦ inr e
    | inl proxies ↦ elim (protocol_of target_url) [
      | none ↦ inr (invalid_target_url target_url)
      | some protocol ↦ agent_for proxies protocol
    ]
  ]

secure_target :
    create_proxy_for_client
      (λ u. some (if text_eq u (codes "p") then codes "http:" else codes "wss:"))
      (codes "t")
      (codes "p")
      true
    ≡ inl (patched_https_agent (codes "p") true)
unfolding create_proxy_for_client create_proxy create_http_proxy includes text_eq
secure_target = refl

other_proxy :
    create_proxy (λ u. some (codes "ftp:")) (codes "p") true
    ≡ inr (unsupported_proxy_protocol (codes "ftp"))
unfolding create_proxy includes text_eq
other_proxy = refl
