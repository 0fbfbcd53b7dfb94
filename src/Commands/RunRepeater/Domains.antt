-- ===== src/Commands/RunRepeater/Domains.antt =====
-- Lists of domains in one value.
use bright_cli.Prelude.{
  IsWord, split_at-word, split_at-append, join-trim, ◌≡◌, refl, ap, ◌∙◌, true, false, some, List,
  [], ◌∷◌, ◌++◌, Text, All, any, split_at, join, is_space, arith,
}
use bright_cli.Commands.RunRepeater.{
  has_code, domains_in, coerce_proxy_domains, coerce_proxy_domains_bypass,
}

has_code-space : (w : Text) → any is_space w ≡ false → has_code 32 w ≡ false
unfolding is_space
has_code-space [] h = refl
has_code-space (c ∷ w) h = ground (arith, has_code-space w)

split_at-join :
    (w : Text) (ws : List Text)
    → All IsWord (w ∷ ws)
    → split_at 32 (join (32 ∷ []) (w ∷ ws)) ≡ w ∷ ws
unfolding join
split_at-join w [] words = split_at-word 32 w (has_code-space w words.0.0)
split_at-join w (v ∷ ws) words =
    split_at-append 32 w (join (32 ∷ []) (v ∷ ws)) (has_code-space w words.0.0)
    ∙ ap (λ l. w ∷ l) (split_at-join v ws words.1)

has_code-append : (p s : Text) → has_code 32 (p ++ 32 ∷ s) ≡ true
has_code-append [] s = refl
has_code-append (c ∷ p) s = ground (arith, has_code-append p s)

domains_in-join :
    (w : Text) (ws : List Text)
    → All IsWord (w ∷ ws)
    → domains_in (join (32 ∷ []) (w ∷ ws)) ≡ w ∷ ws
unfolding domains_in join
domains_in-join w [] words = rw (has_code-space w words.0.0) refl
domains_in-join w (v ∷ ws) words =
    rw (has_code-append w (join (32 ∷ []) (v ∷ ws)))
      (rw (join-trim (32 ∷ []) w (v ∷ ws) words) (split_at-join w (v ∷ ws) words))

-- Domains that come as one value with single spaces between them, as a variable of the environment
-- gives them, are the same list as those that come one by one, for the domains that go through the
-- proxy and for those that do not.
pub coerce_proxy_domains-join :
    (domain : Text) (domains : List Text)
    → All IsWord (domain ∷ domains)
    → (coerce_proxy_domains (some (join (32 ∷ []) (domain ∷ domains) ∷ []))
        ≡ coerce_proxy_domains (some (domain ∷ domains)))
      × (coerce_proxy_domains_bypass (some (join (32 ∷ []) (domain ∷ domains) ∷ []))
          ≡ coerce_proxy_domains_bypass (some (domain ∷ domains)))
unfolding coerce_proxy_domains coerce_proxy_domains_bypass join
coerce_proxy_domains-join w [] words = (refl, refl)
coerce_proxy_domains-join w (v ∷ ws) words =
    let parts = ap (λ l. some l) (domains_in-join w (v ∷ ws) words) in (parts, parts)
