-- ===== src/Mcp/RepeaterTools/Entries.antt =====
-- How a change of an entry or of the map keeps every child that runs registered.
use bright_cli.Prelude.{
  distinct, ℕ, zero, suc, ◌≡◌, refl, sym, ap, subst, ◌∙◌, Bool, true, false, not, ◌&&◌, Option,
  none, some, List, [], ◌∷◌, ◌++◌, Text, text_eq, text_eq_iff, lookup, erase, Assoc, length,
  get_elem?, Bool-cases, inl, inr, ◌⊎◌, arith, ◌==◌, ==_iff, if◌then◌else◌,
}
use bright_cli.Mcp.Redaction.{RunInput, args_with, collect_sensitive_values, redact_with}
use bright_cli.Mcp.Redaction.Contains.{contains, IsClean}
use bright_cli.Mcp.Redaction.Token.{redact_with-args_with}
use bright_cli.Mcp.Processes.{
  RepeaterProcess, RepeaterTools, no_processes, is_running, ToolAction, set_entry,
}
use bright_cli.Mcp.RepeaterTools.{forget_at}

-- The child was spawned with the arguments of an input with its id and of a token; their secrets are
-- those of the entry; and the error that is kept does not have the token, where the token has no
-- bracket and is no part of the word `Filtered`.
abbrev pub IsRedacted : RepeaterProcess → Type 0
IsRedacted entry =
    (input : RunInput) × (token : Text) × (entry.arguments ≡ args_with input token)
    × (entry.id ≡ input.id)
    × (entry.sensitive_values ≡ distinct [] (collect_sensitive_values entry.arguments))
    × ((error : Text)
        → entry.last_error ≡ some error
        → IsClean token
        → contains error token ≡ false)

-- An entry is redacted with a message that its secrets are taken out of.
pub entry-IsRedacted :
    (entry entry' : RepeaterProcess) (message : Text)
    → IsRedacted entry
    → entry'.arguments ≡ entry.arguments
    → entry'.id ≡ entry.id
    → entry'.sensitive_values ≡ entry.sensitive_values
    → entry'.last_error ≡ some (redact_with entry.sensitive_values message)
    → IsRedacted entry'
entry-IsRedacted entry entry' message (input, token, args, id, secrets, old) args' id' secrets'
      kept =
    (
      input,
      token,
      args' ∙ args,
      id' ∙ id,
      secrets' ∙ secrets ∙ ap (λ l. distinct [] (collect_sensitive_values l)) (sym args'),
      λ error here clean.
          let values : entry.sensitive_values
              ≡ distinct [] (collect_sensitive_values (args_with input token)) =
            secrets ∙ ap (λ l. distinct [] (collect_sensitive_values l)) args in
          let same : error ≡ redact_with entry.sensitive_values message = cc in
          ap (λ e. contains e token) (same ∙ ap (λ l. redact_with l message) values)
          ∙ redact_with-args_with input token message clean,
    )

-- The entry of a child that runs is the one of its id.
abbrev pub IsRegistered : RepeaterTools → Type 0
IsRegistered t =
    (n : ℕ) (entry : RepeaterProcess)
    → get_elem? t.entries n ≡ some entry
    → IsRedacted entry × (is_running entry ≡ true → lookup entry.id t.processes ≡ some n)

pub no_processes-IsRegistered : IsRegistered no_processes
no_processes-IsRegistered n entry h = cc

pub set_entry-elem :
    (n m : ℕ) (e f : RepeaterProcess) (entries : List RepeaterProcess)
    → get_elem? (set_entry n e entries) m ≡ some f
    → ((m ≡ n) × (f ≡ e)) ⊎ (get_elem? entries m ≡ some f)
set_entry-elem n m e f [] h = cc
set_entry-elem zero zero e f (x ∷ entries) h = inl (refl, cc)
set_entry-elem zero (suc m) e f (x ∷ entries) h = inr h
set_entry-elem (suc n) zero e f (x ∷ entries) h = inr h
set_entry-elem (suc n) (suc m) e f (x ∷ entries) h = elim (set_entry-elem n m e f entries h) [
  | inl (same, here) ↦ inl (ap suc same, here)
  | inr there ↦ inr there
]

pub get_elem?-set_entry :
    (n : ℕ) (e f : RepeaterProcess) (entries : List RepeaterProcess)
    → get_elem? entries n ≡ some f
    → get_elem? (set_entry n e entries) n ≡ some e
get_elem?-set_entry n e f [] h = cc
get_elem?-set_entry zero e f (x ∷ entries) h = refl
get_elem?-set_entry (suc n) e f (x ∷ entries) h = get_elem?-set_entry n e f entries h

pub get_elem?-snoc :
    (entries : List RepeaterProcess) (e f : RepeaterProcess) (m : ℕ)
    → get_elem? (entries ++ e ∷ []) m ≡ some f
    → ((m ≡ length entries) × (f ≡ e)) ⊎ (get_elem? entries m ≡ some f)
get_elem?-snoc [] e f zero h = inl (refl, cc)
get_elem?-snoc [] e f (suc m) h = cc
get_elem?-snoc (x ∷ entries) e f zero h = inr h
get_elem?-snoc (x ∷ entries) e f (suc m) h = elim (get_elem?-snoc entries e f m h) [
  | inl (same, here) ↦ inl (ap suc same, here)
  | inr there ↦ inr there
]

pub lookup-erase_ne :
    (j k : Text) (m : Assoc ℕ) → text_eq k j ≡ false → lookup j (erase k m) ≡ lookup j m
unfolding lookup erase
lookup-erase_ne j k [] h = refl
lookup-erase_ne j k ((i, v) ∷ m) h =
    ground (arith, text_eq_iff k i, text_eq_iff j i, text_eq_iff k j, lookup-erase_ne j k m)

-- An entry that changes stays sound if its id stays, its error is redacted, and it does not start to run.
pub set_entry-IsRegistered :
    (t : RepeaterTools) (n : ℕ) (entry entry' : RepeaterProcess)
    → IsRegistered t
    → get_elem? t.entries n ≡ some entry
    → entry'.id ≡ entry.id
    → IsRedacted entry'
    → (is_running entry' ≡ true → is_running entry ≡ true)
    → IsRegistered (record t { entries = set_entry n entry' t.entries })
set_entry-IsRegistered t n entry entry' sound here id redacted runs m f h =
    elim (set_entry-elem n m entry' f t.entries h) [
      | inr there ↦ sound m f there
      | inl (same, changed) ↦
          let registered = λ (r : is_running entry' ≡ true).
            ap (λ i. lookup i t.processes) id ∙ (sound n entry here).1 (runs r) in
          let kept : IsRedacted entry'
              × (is_running entry' ≡ true → lookup entry'.id t.processes ≡ some n) =
            (redacted, registered) in
          subst (λ g. IsRedacted g × (is_running g ≡ true → lookup g.id t.processes ≡ some m))
            (sym changed)
            (subst
              (λ k.
                IsRedacted entry'
                × (is_running entry' ≡ true → lookup entry'.id t.processes ≡ some k))
              (sym same) kept)
    ]

pub erase-IsRegistered :
    (t : RepeaterTools) (n : ℕ) (entry : RepeaterProcess)
    → IsRegistered t
    → get_elem? t.entries n ≡ some entry
    → is_running entry ≡ false
    → lookup entry.id t.processes ≡ some n
    → IsRegistered (record t { processes = erase entry.id t.processes })
erase-IsRegistered t n entry sound here stopped at_id m f h =
    let (redacted, registered) = sound m f h in
    (
      redacted,
      λ runs. elim (Bool-cases (text_eq entry.id f.id)) [
        | inr other ↦ lookup-erase_ne f.id entry.id t.processes other ∙ registered runs
        | inl same ↦
            let id = (text_eq_iff entry.id f.id).0 same in
            let found = registered runs in
            let there = ap (λ i. lookup i t.processes) id in
            let number : n ≡ m = cc in
            let e : entry ≡ f = cc (ap (get_elem? t.entries) number) in
            let stopped' = ap is_running e in cc
      ],
    )

pub if-IsRegistered :
    (t : RepeaterTools) (b : Bool) (p q : Assoc ℕ)
    → (b ≡ true → IsRegistered (record t { processes = p }))
    → IsRegistered (record t { processes = q })
    → IsRegistered (record t { processes = if b then p else q })
if-IsRegistered t true p q h k = h refl
if-IsRegistered t false p q h k = k

pub forget-IsRegistered :
    (t : RepeaterTools) (n : ℕ) (entry : RepeaterProcess) (o : Option ℕ)
    → IsRegistered t
    → get_elem? t.entries n ≡ some entry
    → lookup entry.id t.processes ≡ o
    → IsRegistered (record t { processes = forget_at n entry t.processes o })
forget-IsRegistered t n entry none sound here found = sound
forget-IsRegistered t n entry (some m) sound here found =
    if-IsRegistered t (m == n && not (is_running entry)) (erase entry.id t.processes) t.processes
      (λ both.
        let same : m ≡ n = (==_iff m n).0 (ground arith) in
        erase-IsRegistered t n entry sound here (ground arith) (found ∙ ap (λ k. some k) same))
      sound

pub either-IsRegistered :
    (b : Bool) (p q : RepeaterTools × List ToolAction)
    → IsRegistered p.0
    → (b ≡ false → IsRegistered q.0)
    → IsRegistered (if b then p else q).0
either-IsRegistered true p q h k = h
either-IsRegistered false p q h k = k refl
