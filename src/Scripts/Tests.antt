-- ===== src/Scripts/Tests.antt =====
-- The theorems on scripts at concrete inputs.
use bright_cli.Prelude.{refl, ◌⊎◌, Bool, true, [], ◌∷◌, Text, Assoc, codes, arith}
use bright_cli.Scripts.{
  ScriptType, local, remote, VirtualScript, Store, many, compile_scripts, find,
}
use bright_cli.Scripts.Store.{IsKeyed}
use bright_cli.Scripts.Laws.{AllOf, HasDistinctKeys, compile_unmixed}
use bright_cli.Scripts.Find.{IsFirst, find-IsFirst}

abbrev any_code : Text → Bool
any_code code = true

abbrev script : ScriptType → VirtualScript
script t = record { id = codes "*.a.com"; type = t; source = codes "x" }

abbrev cloud_script : VirtualScript
cloud_script = record { id = codes "b"; type = remote; source = codes "y" }

abbrev mixed : Store
mixed = (codes "*.a.com", script local) ∷ (codes "b", cloud_script) ∷ []

abbrev cloud : Store
cloud = (codes "b", cloud_script) ∷ []

abbrev update : Assoc Text
update = (codes "c", codes "1") ∷ (codes "d", codes "2") ∷ []

mixed-IsKeyed : IsKeyed mixed
mixed-IsKeyed = (refl, ((λ e. cc), tt), (refl, tt, tt))

cloud-IsKeyed : IsKeyed cloud
cloud-IsKeyed = (refl, tt, tt)

compile_unmixed_example :
    let after = (compile_scripts any_code (many update) mixed).0 in
    IsKeyed after × (AllOf local after ⊎ AllOf remote after)
compile_unmixed_example = compile_unmixed any_code (many update) mixed mixed-IsKeyed

update-HasDistinctKeys : HasDistinctKeys any_code update
update-HasDistinctKeys = (((λ e. ground arith), tt), (tt, tt))

find-IsFirst_example : IsFirst (codes "x.a.com") mixed (find (codes "x.a.com") mixed)
find-IsFirst_example = find-IsFirst (codes "x.a.com") mixed
