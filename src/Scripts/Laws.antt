-- ===== src/Scripts/Laws.antt =====
-- What `compileScripts` leaves in the store: scripts from the cloud never join local ones.
use bright_cli.Prelude.{
  ◌≡◌, ◌≢◌, refl, sym, ap, ◌∙◌, Bool, true, false, none, some, [], ◌∷◌, ◌++◌, Text, All, All-append,
  arith, ◌⊎◌, inl, inr, is_empty, insert, filter_by, map, Assoc, text_eq_iff, append_assoc,
  append-nil,
}
use bright_cli.Scripts.{
  ScriptType, local, remote, VirtualScript, ScriptError, Store, Outcome, Sent, one, many,
  strip_zero_width, clear, set, new_script, set_all, put_script, unless_thrown, accept,
  compile_scripts,
}
use bright_cli.Scripts.Store.{
  IsAbsent, IsKeyed, not_of, clear-eq-filter_by, clear-IsKeyed, insert-IsKeyed,
}

abbrev pub AllOf : ScriptType → Store → Type 0
AllOf type store = All (λ e. e.1.type ≡ type) store

-- The scripts of the store that are local, in their order.
abbrev pub locals : Store → Store
locals store = filter_by (not_of remote) store

locals-AllOf : (store : Store) → AllOf local (locals store)
locals-AllOf [] = tt
locals-AllOf ((k, x) ∷ store) = ground (arith, locals-AllOf store)

insert-AllOf :
    (type : ScriptType) (k : Text) (x : VirtualScript) (store : Store)
    → x.type ≡ type
    → AllOf type store
    → AllOf type (insert k x store)
unfolding insert
insert-AllOf type k x [] e h = (e, tt)
insert-AllOf type k x ((j, y) ∷ store) e (p, h) = ground (arith, insert-AllOf type k x store e h)

module _ (compiles : Text → Bool) where
  -- A script that the constructor takes.
  abbrev pub IsScript : Text × Text → Type 0
  IsScript e =
      (is_empty e.0 ≡ false) × (is_empty e.1 ≡ false) × (compiles (strip_zero_width e.1) ≡ true)

  new_script-type :
      (id : Text) (type : ScriptType) (code : Text) (x : VirtualScript)
      → new_script compiles id type code ≡ inl x
      → x.type ≡ type
  unfolding new_script
  new_script-type id type code x h = ground arith

  IsRemote : Store → Type 0
  IsRemote store = IsKeyed store × AllOf remote store

  put_script-IsRemote :
      (r : VirtualScript ⊎ ScriptError) (store : Store)
      → ((x : VirtualScript) → r ≡ inl x → x.type ≡ remote)
      → IsRemote store
      → IsRemote (put_script r store).0
  unfolding IsRemote
  put_script-IsRemote (inl x) store t (h, k) =
      (insert-IsKeyed x store h, insert-AllOf remote x.id x store (t x refl) k)
  put_script-IsRemote (inr e) store t h = h

  set-IsRemote :
      (wildcard code : Text) (store : Store)
      → IsRemote store
      → IsRemote (set compiles wildcard remote code store).0
  unfolding set
  set-IsRemote wildcard code store h =
      put_script-IsRemote (new_script compiles wildcard remote code) store
        (new_script-type wildcard remote code) h

  unless_thrown-IsRemote :
      (r later : Outcome) → IsRemote r.0 → IsRemote later.0 → IsRemote (unless_thrown r later).0
  unless_thrown-IsRemote (store, none) later h k = k
  unless_thrown-IsRemote (store, some e) later h k = h

  set_all-IsRemote :
      (scripts : Assoc Text) (store : Store)
      → IsRemote store
      → IsRemote (set_all compiles scripts store).0
  unfolding set_all
  set_all-IsRemote [] store h = h
  set_all-IsRemote ((wildcard, code) ∷ rest) store h =
      let r = set compiles wildcard remote code store in
      let k = set-IsRemote wildcard code store h in
      unless_thrown-IsRemote r (set_all compiles rest r.0) k (set_all-IsRemote rest r.0 k)

  accept_kept : (sent : Sent) (kept : Store) → kept ≢ [] → accept compiles sent kept ≡ (kept, none)
  unfolding accept
  accept_kept sent [] n = absurd (n refl)
  accept_kept (one code) (e ∷ kept) n = ground arith
  accept_kept (many scripts) (e ∷ kept) n = ground arith

  accept_unmixed :
      (sent : Sent) (kept : Store)
      → IsKeyed kept
      → AllOf local kept
      → let after = (accept compiles sent kept).0 in
        IsKeyed after × (AllOf local after ⊎ AllOf remote after)
  unfolding accept IsRemote
  accept_unmixed (one code) [] h k =
      let (a, b) = set-IsRemote (b'*' ∷ []) code [] (tt, tt) in (a, inr b)
  accept_unmixed (many scripts) [] h k =
      let (a, b) = set_all-IsRemote scripts [] (tt, tt) in (a, inr b)
  accept_unmixed (one code) (e ∷ kept) h k =
      rw (accept_kept (one code) (e ∷ kept) (λ p. cc)) (h, inl k)
  accept_unmixed (many scripts) (e ∷ kept) h k =
      rw (accept_kept (many scripts) (e ∷ kept) (λ p. cc)) (h, inl k)

  -- With a local script in the store, what the cloud sends is refused: the local scripts stay as
  -- they were, in their order, every script of the cloud is gone, and nothing is thrown.
  pub compile_keeps_local :
      (sent : Sent) (store : Store)
      → IsKeyed store
      → locals store ≢ []
      → compile_scripts compiles sent store ≡ (locals store, none)
  unfolding compile_scripts
  compile_keeps_local sent store h n =
      ap (accept compiles sent) (clear-eq-filter_by remote store h)
      ∙ accept_kept sent (locals store) n

  -- After `compileScripts`, whether it throws or not, the store is well formed, and its scripts
  -- are all local or all from the cloud.
  pub compile_unmixed :
      (sent : Sent) (store : Store)
      → IsKeyed store
      → let after = (compile_scripts compiles sent store).0 in
        IsKeyed after × (AllOf local after ⊎ AllOf remote after)
  unfolding compile_scripts
  compile_unmixed sent store h =
      accept_unmixed sent (clear (some remote) store) (clear-IsKeyed remote store h)
        (rw (clear-eq-filter_by remote store h) (locals-AllOf store))

  abbrev pub sent_entry : Text × Text → Text × VirtualScript
  sent_entry e = (e.0, record { id = e.0; type = remote; source = strip_zero_width e.1 })

  abbrev pub HasDistinctKeys : Assoc Text → Type 0
  HasDistinctKeys [] = Unit
  HasDistinctKeys (e ∷ rest) = All (λ f. f.0 ≢ e.0) rest × HasDistinctKeys rest

  insert-snoc :
      (k : Text) (x : VirtualScript) (store : Store)
      → IsAbsent k store
      → insert k x store ≡ store ++ (k, x) ∷ []
  unfolding insert
  insert-snoc k x [] h = refl
  insert-snoc k x ((j, y) ∷ store) (n, h) = ground (arith, text_eq_iff k j, insert-snoc k x store h)

  set_lem :
      (e : Text × Text) (store : Store)
      → IsScript e
      → IsAbsent e.0 store
      → set compiles e.0 remote e.1 store ≡ (store ++ sent_entry e ∷ [], none)
  unfolding set new_script
  set_lem e store (i, c, v) a =
      rw (i, c, v) (ap (λ (s : Store). (s, none)) (insert-snoc e.0 (sent_entry e).1 store a))

  IsAbsent-snoc :
      (k : Text) (x : VirtualScript) (store : Store) (rest : Assoc Text)
      → All (λ e. IsAbsent e.0 store) rest
      → All (λ f. f.0 ≢ k) rest
      → All (λ e. IsAbsent e.0 (store ++ (k, x) ∷ [])) rest
  IsAbsent-snoc k x store [] a n = tt
  IsAbsent-snoc k x store (e ∷ rest) (p, a) (q, n) = (
    All-append (λ f. f.0 ≢ e.0) store ((k, x) ∷ []) p ((λ r. q (sym r)), tt),
    IsAbsent-snoc k x store rest a n,
  )

  set_all_lem :
      (scripts : Assoc Text) (store : Store)
      → HasDistinctKeys scripts
      → All IsScript scripts
      → All (λ e. IsAbsent e.0 store) scripts
      → set_all compiles scripts store ≡ (store ++ map sent_entry scripts, none)
  unfolding set_all
  set_all_lem [] store d v a = ap (λ (s : Store). (s, none)) (sym (append-nil store))
  set_all_lem ((w, c) ∷ rest) store (n, d) (v, vs) (a, as') = rw (set_lem (w, c) store v a) (
      set_all_lem rest (store ++ sent_entry (w, c) ∷ []) d vs
        (IsAbsent-snoc w (sent_entry (w, c)).1 store rest as' n)
      ∙ ap (λ (s : Store). (s, none))
          (append_assoc store (sent_entry (w, c) ∷ []) (map sent_entry rest)))

  IsAbsent-nil : (scripts : Assoc Text) → All (λ e. IsAbsent e.0 []) scripts
  IsAbsent-nil [] = tt
  IsAbsent-nil (e ∷ scripts) = (tt, IsAbsent-nil scripts)

  accept-nil :
      (scripts : Assoc Text)
      → HasDistinctKeys scripts
      → All IsScript scripts
      → accept compiles (many scripts) [] ≡ (map sent_entry scripts, none)
  unfolding accept
  accept-nil scripts d v = set_all_lem scripts [] d v (IsAbsent-nil scripts)

  -- With no local script in the store, the scripts of the cloud become the whole store, each under
  -- its wildcard and in the order sent, and nothing is thrown; the earlier ones are gone.
  pub compile_replaces :
      (scripts : Assoc Text) (store : Store)
      → IsKeyed store
      → locals store ≡ []
      → HasDistinctKeys scripts
      → All IsScript scripts
      → compile_scripts compiles (many scripts) store ≡ (map sent_entry scripts, none)
  unfolding compile_scripts
  compile_replaces scripts store h n d v =
      ap (accept compiles (many scripts)) (clear-eq-filter_by remote store h ∙ n)
      ∙ accept-nil scripts d v
