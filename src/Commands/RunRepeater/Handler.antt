-- ===== src/Commands/RunRepeater/Handler.antt =====
-- The handler of src/Commands/RunRepeater.ts, as the calls of the launcher that it makes and how it ends.
use bright_cli.Prelude.{
  ℕ, ◌≡◌, ◌↔◌, refl, Bool, true, false, ◌&&◌, Option, none, some, List, [], ◌∷◌, Text, arith,
  if◌then◌else◌, Bool-cases, inl, inr,
}

pub data LauncherCall : Type 0 where
  load_certs : Option Text → LauncherCall
  load_scripts uninstall install on_signals run close : LauncherCall

-- The process gets a code, the handler returns and the repeater works on, or the handler rejects.
pub data HandlerEnd : Type 0 where
  exits : ℕ → HandlerEnd
  returned rejected : HandlerEnd

-- `cacert` is `some none` where it is given without a path.
pub record HandlerArguments : Type 0 where
  pub cacert : Option (Option Text)
  pub scripts : Bool
  pub remove : Bool
  pub daemon : Bool

abbrev pub Ran : Type 0
Ran = List LauncherCall × HandlerEnd

-- A call that is awaited, and what follows if it succeeds.
abbrev pub await_call : (LauncherCall → Bool) → LauncherCall → Ran → Ran
await_call fails call rest = if fails call then (call ∷ [], rejected) else (call ∷ rest.0, rest.1)

-- The `try` of the handler; `process.on` does not fail.
unfoldable pub run_repeater : (LauncherCall → Bool) → Ran
run_repeater fails =
    if fails run
    then (on_signals ∷ run ∷ close ∷ [], if fails close then rejected else exits 1)
    else (on_signals ∷ run ∷ [], returned)

abbrev pub load_certs_first : (LauncherCall → Bool) → Option (Option Text) → Ran → Ran
load_certs_first fails none rest = rest
load_certs_first fails (some path) rest = await_call fails (load_certs path) rest

abbrev pub load_scripts_first : (LauncherCall → Bool) → Bool → Ran → Ran
load_scripts_first fails false rest = rest
load_scripts_first fails true rest = await_call fails load_scripts rest

-- The rest of the handler, for `remove` and `daemon`.
abbrev pub manage_or_run : (LauncherCall → Bool) → (remove daemon : Bool) → Ran
manage_or_run fails true daemon = await_call fails uninstall ([], exits 0)
manage_or_run fails false true = await_call fails install ([], exits 0)
manage_or_run fails false false = run_repeater fails

-- `handler`
unfoldable pub repeater_handler : (LauncherCall → Bool) → HandlerArguments → Ran
repeater_handler fails args =
    load_certs_first fails args.cacert
      (load_scripts_first fails args.scripts (manage_or_run fails args.remove args.daemon))

abbrev pub is_run : LauncherCall → Bool
is_run run = true
is_run _ = false

-- Whether the calls have one that starts the repeater.
abbrev pub runs : List LauncherCall → Bool
runs [] = false
runs (call ∷ calls) = if is_run call then true else runs calls

abbrev pub load_certs_fails : (LauncherCall → Bool) → Option (Option Text) → Bool
load_certs_fails fails none = false
load_certs_fails fails (some path) = fails (load_certs path)

run_repeater-runs : (fails : LauncherCall → Bool) → runs (run_repeater fails).0 ≡ true
unfolding run_repeater
run_repeater-runs fails = elim (Bool-cases (fails run)) [ inl e ↦ rw e refl | inr e ↦ rw e refl ]

await_call-runs :
    (fails : LauncherCall → Bool) (call : LauncherCall) (rest : Ran)
    → is_run call ≡ false
    → (runs (await_call fails call rest).0 ≡ true) ↔ ((fails call ≡ false) × (runs rest.0 ≡ true))
await_call-runs fails call rest other = elim (Bool-cases (fails call)) [
  | inl e ↦ rw e (rw other ground arith)
  | inr e ↦ rw e (rw other ground arith)
]

manage_or_run-runs :
    (fails : LauncherCall → Bool) (remove daemon : Bool)
    → (runs (manage_or_run fails remove daemon).0 ≡ true) ↔ ((remove ≡ false) × (daemon ≡ false))
manage_or_run-runs fails true daemon =
    ground (arith, await_call-runs fails uninstall ([], exits 0) refl)
manage_or_run-runs fails false true =
    ground (arith, await_call-runs fails install ([], exits 0) refl)
manage_or_run-runs fails false false = (λ h. (refl, refl), λ h. run_repeater-runs fails)

load_scripts_first-runs :
    (fails : LauncherCall → Bool) (scripts : Bool) (rest : Ran)
    → (runs (load_scripts_first fails scripts rest).0 ≡ true)
      ↔ ((scripts && fails load_scripts ≡ false) × (runs rest.0 ≡ true))
load_scripts_first-runs fails false rest = (λ h. (refl, h), λ h. h.1)
load_scripts_first-runs fails true rest = await_call-runs fails load_scripts rest refl

load_certs_first-runs :
    (fails : LauncherCall → Bool) (cacert : Option (Option Text)) (rest : Ran)
    → (runs (load_certs_first fails cacert rest).0 ≡ true)
      ↔ ((load_certs_fails fails cacert ≡ false) × (runs rest.0 ≡ true))
load_certs_first-runs fails none rest = (λ h. (refl, h), λ h. h.1)
load_certs_first-runs fails (some path) rest = await_call-runs fails (load_certs path) rest refl

-- The repeater is started exactly where neither its removal nor the daemon is asked for and what was to
-- be loaded before has been loaded.
pub repeater_handler-runs :
    (fails : LauncherCall → Bool) (args : HandlerArguments)
    → (runs (repeater_handler fails args).0 ≡ true) ↔ (
        (args.remove ≡ false)
        × (args.daemon ≡ false)
        × (load_certs_fails fails args.cacert ≡ false)
        × (args.scripts && fails load_scripts ≡ false))
unfolding repeater_handler
repeater_handler-runs fails args =
    let managed = manage_or_run fails args.remove args.daemon in
    let scripted = load_scripts_first fails args.scripts managed in
    let (certs, certs') = load_certs_first-runs fails args.cacert scripted in
    let (scripts, scripts') = load_scripts_first-runs fails args.scripts managed in
    let (mode, mode') = manage_or_run-runs fails args.remove args.daemon in
    (
      λ h. let c = certs h in let s = scripts c.1 in let m = mode s.1 in (m.0, m.1, c.0, s.0),
      λ (removed, daemon, c, s). certs' (c, scripts' (s, mode' (removed, daemon))),
    )
