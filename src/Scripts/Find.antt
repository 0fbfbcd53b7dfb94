-- ===== src/Scripts/Find.antt =====
-- Which script `find` chooses for a host.
use bright_cli.Prelude.{
  ◌≡◌, refl, ap, false, Option, none, some, [], ◌∷◌, ◌++◌, Text, All, inl, inr, Bool-cases,
}
use bright_cli.Utils.Wildcard.{wildcard_test}
use bright_cli.Utils.Wildcard.Globs.{Globs}
use bright_cli.Utils.Wildcard.Laws.{wildcard_test_iff}
use bright_cli.Scripts.{VirtualScript, Store, find}

abbrev pub Misses : Text → Store → Type 0
Misses host store = All (λ e. ¬ Globs e.1.id host) store

-- The result is the first script of the store, in the order of insertion, whose wildcard stands for
-- the host, and there is none only if no wildcard does.
abbrev pub IsFirst : Text → Store → Option VirtualScript → Type 0
IsFirst host store none = Misses host store
IsFirst host store (some s) =
    (earlier : Store) × (key : Text) × (later : Store) × (store ≡ earlier ++ (key, s) ∷ later)
    × Misses host earlier
    × Globs s.id host

IsFirst-cons :
    (host k : Text) (x : VirtualScript) (store : Store) (r : Option VirtualScript)
    → ¬ Globs x.id host
    → IsFirst host store r
    → IsFirst host ((k, x) ∷ store) r
IsFirst-cons host k x store none n h = (n, h)
IsFirst-cons host k x store (some s) n (earlier, key, later, e, m, g) =
    ((k, x) ∷ earlier, key, later, ap (λ l. (k, x) ∷ l) e, (n, m), g)

not-Globs : (w s : Text) → wildcard_test w s ≡ false → ¬ Globs w s
not-Globs w s h g = cc ((wildcard_test_iff w s).1 g, h)

-- `find` gives the first script in the order of insertion whose wildcard stands for the host, and
-- nothing only if no script's wildcard does.
pub find-IsFirst : (host : Text) (store : Store) → IsFirst host store (find host store)
unfolding find
find-IsFirst host [] = tt
find-IsFirst host ((k, x) ∷ store) = elim (Bool-cases (wildcard_test x.id host)) [
  | inl hit ↦ rw hit ([], k, store, refl, tt, (wildcard_test_iff x.id host).0 hit)
  | inr miss ↦ rw miss (
      IsFirst-cons host k x store (find host store) (not-Globs x.id host miss)
        (find-IsFirst host store))
]
