-- ===== src/RequestExecutor/Http/Domains.antt =====
-- Which hosts go through the proxy, and which authenticate by Kerberos.
use bright_cli.Prelude.{
  ◌≡◌, refl, ◌↔◌, ◌⊎◌, inl, inr, Bool, true, false, not, Option, none, some, List, [], ◌∷◌, map,
  Text, Bool-cases, arith, if◌then◌else◌,
}
use bright_cli.Utils.Wildcard.{wildcard_to_reg_exp, reg_exp_test, wildcard_test}
use bright_cli.Utils.Wildcard.Globs.{Globs}
use bright_cli.Utils.Wildcard.Laws.{wildcard_test_iff}
use bright_cli.RequestExecutor.Options.{RequestExecutorOptions, KerberosOptions}
use bright_cli.RequestExecutor.Http.{
  HttpRequestExecutor, new_executor, reg_exps, kerberos_reg_exps, test_any, outside, inside, within,
  resolve_proxy, should_apply_kerberos,
}

-- Some wildcard of the list stands for the host name.
abbrev pub IsListed : List Text → Text → Type 0
IsListed [] hostname = ⊥
IsListed (w ∷ ws) hostname = Globs w hostname ⊎ IsListed ws hostname

-- A list that is absent admits every host name.
abbrev pub IsAdmitted : Option (List Text) → Text → Type 0
IsAdmitted none hostname = Unit
IsAdmitted (some ws) hostname = IsListed ws hostname

-- A list that is absent bars no host name.
abbrev pub IsBarred : Option (List Text) → Text → Type 0
IsBarred none hostname = ⊥
IsBarred (some ws) hostname = IsListed ws hostname

wildcard→reg_exp :
    (w hostname : Text) → (reg_exp_test (wildcard_to_reg_exp w) hostname ≡ true) ↔ Globs w hostname
unfolding wildcard_test
wildcard→reg_exp w hostname = wildcard_test_iff w hostname

test_any_iff :
    (ws : List Text) (hostname : Text)
    → (test_any (map wildcard_to_reg_exp ws) hostname ≡ true) ↔ IsListed ws hostname
test_any_iff [] hostname = ((λ h. cc), λ h. absurd h)
test_any_iff (w ∷ ws) hostname =
    (to (test_any_iff ws hostname).0, from (test_any_iff ws hostname).1)
  where
    to :
        (test_any (map wildcard_to_reg_exp ws) hostname ≡ true → IsListed ws hostname)
        → test_any (map wildcard_to_reg_exp (w ∷ ws)) hostname ≡ true
        → IsListed (w ∷ ws) hostname
    to ih h = elim (Bool-cases (reg_exp_test (wildcard_to_reg_exp w) hostname)) [
      | inl hit ↦ inl ((wildcard→reg_exp w hostname).0 hit)
      | inr miss ↦ inr (ih (ground arith))
    ]

    from :
        (IsListed ws hostname → test_any (map wildcard_to_reg_exp ws) hostname ≡ true)
        → IsListed (w ∷ ws) hostname
        → test_any (map wildcard_to_reg_exp (w ∷ ws)) hostname ≡ true
    from ih (inl g) = rw ((wildcard→reg_exp w hostname).1 g)
    from ih (inr l) = let rest = ih l in ground arith

outside_iff :
    (o : Option (List Text)) (hostname : Text)
    → (outside (reg_exps o) hostname ≡ false) ↔ IsAdmitted o hostname
outside_iff none hostname = ((λ h. tt), λ h. refl)
outside_iff (some ws) hostname =
    let (to, from) = test_any_iff ws hostname in ((λ h. to (ground arith)), λ l. rw (from l))

within_iff :
    (o : Option (List Text)) (hostname : Text)
    → (within (reg_exps o) hostname ≡ true) ↔ IsAdmitted o hostname
within_iff none hostname = ((λ h. tt), λ h. refl)
within_iff (some ws) hostname = test_any_iff ws hostname

inside_iff :
    (o : Option (List Text)) (hostname : Text)
    → (inside (reg_exps o) hostname ≡ true) ↔ IsBarred o hostname
inside_iff none hostname = ((λ h. cc), λ h. absurd h)
inside_iff (some ws) hostname = test_any_iff ws hostname

made :
    (o : RequestExecutorOptions) (x : HttpRequestExecutor)
    → new_executor o ≡ inl x
    → (x.options ≡ o)
      × (x.proxy_domains ≡ reg_exps o.proxy_domains)
      × (x.proxy_domains_bypass ≡ reg_exps o.proxy_domains_bypass)
      × (x.kerberos_domains ≡ kerberos_reg_exps o.kerberos)
unfolding new_executor
made o x h = ground arith

choice_iff :
    (a b : Bool) (proxy : Text)
    → ((if a then none else if b then none else some proxy) ≡ some proxy)
      ↔ ((a ≡ false) × (b ≡ false))
choice_iff a b proxy = ground arith

resolve_proxy-eq :
    (o : RequestExecutorOptions) (x : HttpRequestExecutor) (proxy hostname : Text)
    → new_executor o ≡ inl x
    → o.proxy_url ≡ some proxy
    → resolve_proxy x hostname ≡ (
        if outside (reg_exps o.proxy_domains) hostname
        then none
        else if inside (reg_exps o.proxy_domains_bypass) hostname
        then none
        else some proxy)
unfolding resolve_proxy
resolve_proxy-eq o x proxy hostname h p =
    let (options, domains, bypass, kerberos) = made o x h in rw (domains, bypass, options, p)

should_apply_kerberos-eq :
    (o : RequestExecutorOptions) (x : HttpRequestExecutor) (k : KerberosOptions) (hostname : Text)
    → new_executor o ≡ inl x
    → o.kerberos ≡ some k
    → should_apply_kerberos x hostname
      ≡ (if not k.enabled then false else within (reg_exps k.domains) hostname)
unfolding should_apply_kerberos
should_apply_kerberos-eq o x k hostname h p =
    let (options, domains, bypass, kerberos) = made o x h in
    rw (kerberos, options, p) (enabled_case k.enabled)
  where
    enabled_case :
        (b : Bool)
        → (if not b then false else within (if b then reg_exps k.domains else none) hostname)
          ≡ (if not b then false else within (reg_exps k.domains) hostname)
    enabled_case true = refl
    enabled_case false = refl

-- A request for a host name goes through the configured proxy exactly if the list of proxied
-- domains is absent or has a wildcard for the name, and no bypass wildcard stands for it.
pub resolve_proxy_iff :
    (o : RequestExecutorOptions) (x : HttpRequestExecutor) (proxy hostname : Text)
    → new_executor o ≡ inl x
    → o.proxy_url ≡ some proxy
    → (resolve_proxy x hostname ≡ some proxy)
      ↔ (IsAdmitted o.proxy_domains hostname × ¬ IsBarred o.proxy_domains_bypass hostname)
resolve_proxy_iff o x proxy hostname h p = rw (resolve_proxy-eq o x proxy hostname h p) ((to, from))
  where
    through : Option Text
    through =
        if outside (reg_exps o.proxy_domains) hostname
        then none
        else if inside (reg_exps o.proxy_domains_bypass) hostname
        then none
        else some proxy

    to :
        through ≡ some proxy
        → IsAdmitted o.proxy_domains hostname × ¬ IsBarred o.proxy_domains_bypass hostname
    to e =
        let (a, b) =
          (choice_iff (outside (reg_exps o.proxy_domains) hostname)
              (inside (reg_exps o.proxy_domains_bypass) hostname) proxy).0
            e in
        (
          (outside_iff o.proxy_domains hostname).0 a,
          λ l. cc ((inside_iff o.proxy_domains_bypass hostname).1 l, b),
        )

    from :
        IsAdmitted o.proxy_domains hostname × ¬ IsBarred o.proxy_domains_bypass hostname
        → through ≡ some proxy
    from (a, n) =
        (choice_iff (outside (reg_exps o.proxy_domains) hostname)
            (inside (reg_exps o.proxy_domains_bypass) hostname) proxy).1
          (
            (outside_iff o.proxy_domains hostname).1 a,
            not_inside (Bool-cases (inside (reg_exps o.proxy_domains_bypass) hostname)) n,
          )
      where
        not_inside :
            (inside (reg_exps o.proxy_domains_bypass) hostname ≡ true)
              ⊎ (inside (reg_exps o.proxy_domains_bypass) hostname ≡ false)
            → ¬ IsBarred o.proxy_domains_bypass hostname
            → inside (reg_exps o.proxy_domains_bypass) hostname ≡ false
        not_inside (inl y) m = absurd (m ((inside_iff o.proxy_domains_bypass hostname).0 y))
        not_inside (inr y) m = y

-- Kerberos is applied to a request exactly if it is enabled and its list of domains is absent or
-- has a wildcard for the host name.
pub should_apply_kerberos_iff :
    (o : RequestExecutorOptions) (x : HttpRequestExecutor) (k : KerberosOptions) (hostname : Text)
    → new_executor o ≡ inl x
    → o.kerberos ≡ some k
    → (should_apply_kerberos x hostname ≡ true)
      ↔ ((k.enabled ≡ true) × IsAdmitted k.domains hostname)
should_apply_kerberos_iff o x k hostname h p =
    rw (should_apply_kerberos-eq o x k hostname h p) ((to, from))
  where
    to :
        (if not k.enabled then false else within (reg_exps k.domains) hostname) ≡ true
        → (k.enabled ≡ true) × IsAdmitted k.domains hostname
    to e = (ground arith, (within_iff k.domains hostname).0 (ground arith))

    from :
        (k.enabled ≡ true) × IsAdmitted k.domains hostname
        → (if not k.enabled then false else within (reg_exps k.domains) hostname) ≡ true
    from (e, a) = let w = (within_iff k.domains hostname).1 a in rw (e, w)
