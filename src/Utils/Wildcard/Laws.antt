-- ===== src/Utils/Wildcard/Laws.antt =====
-- The expression made from a wildcard matches exactly what the wildcard stands for.
use bright_cli.Prelude.{
  ℕ, ◌≡◌, ◌≢◌, refl, ap, ◌∙◌, ◌↔◌, inl, inr, Bool, true, false, Option, none, some, List, [], ◌∷◌,
  ◌++◌, map, append_assoc, append-nil, Text, codes, join, if◌then◌else◌, ◌==◌, arith, Bool-cases,
}
use native.Mathlib.Decide.{ℕ_discrete}
use bright_cli.Utils.Wildcard.{
  star, is_syntax, reg_exp_escape, extend, split_stars, wildcard_to_reg_exp, Node, lit, any_run,
  cons_node, parse_nodes, parse_reg_exp, is_line_end, matches, reg_exp_test, test_nodes, test_nodes,
  wildcard_test,
}
use bright_cli.Utils.Wildcard.Globs.{Globs, nil, unit, star_stop, star_more}

-- The nodes of a wildcard, with its runs of stars taken together.
glob_nodes : Bool → Text → List Node
glob_nodes after [] = []
glob_nodes after (c ∷ s) =
    let run = glob_nodes true s in
    let word = lit c ∷ glob_nodes false s in
    if c == star then if after then run else any_run ∷ run else word

abbrev nodes_of : List Text → List Node
nodes_of [] = []
nodes_of (t ∷ []) = map lit t
nodes_of (t ∷ u ∷ ts) = map lit t ++ any_run ∷ nodes_of (u ∷ ts)

nodes_of-extend : (c : ℕ) (ts : List Text) → nodes_of (extend c ts) ≡ lit c ∷ nodes_of ts
nodes_of-extend c [] = refl
nodes_of-extend c (t ∷ []) = refl
nodes_of-extend c (t ∷ u ∷ ts) = refl

nodes_of-nil : (ts : List Text) → ts ≢ [] → nodes_of ([] ∷ ts) ≡ any_run ∷ nodes_of ts
nodes_of-nil [] h = absurd (h refl)
nodes_of-nil (t ∷ ts) h = refl

extend-ne-nil : (c : ℕ) (ts : List Text) → extend c ts ≢ []
extend-ne-nil c [] = cc
extend-ne-nil c (t ∷ ts) = cc

split_stars-ne-nil : (after : Bool) (s : Text) → split_stars after s ≢ []
unfolding split_stars
split_stars-ne-nil after [] = cc
split_stars-ne-nil after (c ∷ s) =
    ground (arith, split_stars-ne-nil true s, extend-ne-nil c (split_stars false s))

nodes_of-split_stars :
    (after : Bool) (s : Text) → nodes_of (split_stars after s) ≡ glob_nodes after s
unfolding split_stars glob_nodes
nodes_of-split_stars after [] = refl
nodes_of-split_stars true (c ∷ s) = ground (
  arith,
  nodes_of-split_stars true s,
  nodes_of-split_stars false s,
  nodes_of-extend c (split_stars false s),
)
nodes_of-split_stars false (c ∷ s) = ground (
  arith,
  nodes_of-split_stars true s,
  nodes_of-split_stars false s,
  nodes_of-extend c (split_stars false s),
  nodes_of-nil (split_stars true s) (split_stars-ne-nil true s),
)

-- Nodes in front of what the rest of a pattern reads as.
abbrev before : List Node → Option (List Node) → Option (List Node)
before ns none = none
before ns (some ms) = some (ns ++ ms)

parse_nodes-plain :
    (c : ℕ) (u : Text)
    → is_syntax c ≡ false
    → u ≢ []
    → parse_nodes (c ∷ u) ≡ cons_node (lit c) (parse_nodes u)
unfolding parse_nodes is_syntax
parse_nodes-plain c [] h n = absurd (n refl)
parse_nodes-plain c (d ∷ u) h n = ground arith

parse_nodes-escaped :
    (c : ℕ) (u : Text)
    → is_syntax c ≡ true
    → parse_nodes (92 ∷ c ∷ u) ≡ cons_node (lit c) (parse_nodes u)
unfolding parse_nodes
parse_nodes-escaped c u h = ground arith

cons_node-before :
    (c : ℕ) (ms : List Node) (o : Option (List Node))
    → cons_node (lit c) (before ms o) ≡ before (lit c ∷ ms) o
cons_node-before c ms none = refl
cons_node-before c ms (some ns) = refl

escape-append-ne-nil : (t rest : Text) → rest ≢ [] → reg_exp_escape t ++ rest ≢ []
unfolding reg_exp_escape
escape-append-ne-nil [] rest h = h
escape-append-ne-nil (c ∷ t) rest h = ground arith

parse_nodes-escape :
    (t rest : Text)
    → rest ≢ []
    → parse_nodes (reg_exp_escape t ++ rest) ≡ before (map lit t) (parse_nodes rest)
unfolding reg_exp_escape
parse_nodes-escape [] rest h = ground arith
parse_nodes-escape (c ∷ t) rest h = elim (Bool-cases (is_syntax c)) [
  | inl special ↦ rw special (
      parse_nodes-escaped c (reg_exp_escape t ++ rest) special
      ∙ ap (cons_node (lit c)) (parse_nodes-escape t rest h)
      ∙ cons_node-before c (map lit t) (parse_nodes rest))
  | inr plain ↦ rw plain (
      parse_nodes-plain c (reg_exp_escape t ++ rest) plain (escape-append-ne-nil t rest h)
      ∙ ap (cons_node (lit c)) (parse_nodes-escape t rest h)
      ∙ cons_node-before c (map lit t) (parse_nodes rest))
]

abbrev source : List Text → Text
source ts = join (codes ".*") (map reg_exp_escape ts) ++ b'$' ∷ []

parse_nodes-star : (u : Text) → parse_nodes (b'.' ∷ b'*' ∷ u) ≡ cons_node any_run (parse_nodes u)
unfolding parse_nodes
parse_nodes-star u = refl

parse_nodes-join : (ts : List Text) → ts ≢ [] → parse_nodes (source ts) ≡ some (nodes_of ts)
unfolding join
parse_nodes-join [] h = absurd (h refl)
parse_nodes-join (t ∷ []) h =
    parse_nodes-escape t (b'$' ∷ []) (λ e. cc)
    ∙ unfold parse_nodes in ap some (append-nil (map lit t))
parse_nodes-join (t ∷ u ∷ ts) h =
    ap parse_nodes (
      append_assoc (reg_exp_escape t)
        (codes ".*" ++ join (codes ".*") (map reg_exp_escape (u ∷ ts))) (b'$' ∷ []))
    ∙ parse_nodes-escape t (b'.' ∷ b'*' ∷ source (u ∷ ts)) (λ e. cc)
    ∙ ap (before (map lit t)) (
        parse_nodes-star (source (u ∷ ts))
        ∙ ap (cons_node any_run) (parse_nodes-join (u ∷ ts) (λ e. cc)))

-- The source that is built for a wildcard is read as the wildcard's characters and runs of stars:
-- no character of it is taken for syntax.
parse-wildcard : (s : Text) → parse_reg_exp (wildcard_to_reg_exp s) ≡ some (glob_nodes false s)
unfolding parse_reg_exp wildcard_to_reg_exp
parse-wildcard s =
    parse_nodes-join (split_stars false s) (split_stars-ne-nil false s)
    ∙ ap some (nodes_of-split_stars false s)

-- Soundness.
module _ (ns : List Node) (w : Text) (below : (s : Text) → matches ns s ≡ true → Globs w s) where
  any_run_sound : (s : Text) → matches (any_run ∷ ns) s ≡ true → Globs (star ∷ w) s
  unfolding matches
  any_run_sound [] h = star_stop refl (below [] h)
  any_run_sound (c ∷ s) h = elim (Bool-cases (matches ns (c ∷ s))) [
    | inl now ↦ star_stop refl (below (c ∷ s) now)
    | inr later ↦ star_more refl (ground arith) (any_run_sound s (ground arith))
  ]

literal_sound :
    (c : ℕ) (ns : List Node) (w : Text)
    → c ≢ star
    → ((s : Text) → matches ns s ≡ true → Globs w s)
    → (s : Text) → matches (lit c ∷ ns) s ≡ true
    → Globs (c ∷ w) s
unfolding matches
literal_sound c ns w n below [] h = cc
literal_sound c ns w n below (d ∷ s) h = unit n (ground arith) (below s (ground arith))

empty_sound : (s : Text) → matches [] s ≡ true → Globs [] s
unfolding matches
empty_sound [] h = nil
empty_sound (d ∷ s) h = cc

glob_nodes-star :
    (after : Bool) (c : ℕ) (w : Text)
    → c ≡ star
    → glob_nodes after (c ∷ w) ≡ (if after then glob_nodes true w else any_run ∷ glob_nodes true w)
unfolding glob_nodes
glob_nodes-star after c w e = ground arith

glob_nodes-lit :
    (after : Bool) (c : ℕ) (w : Text)
    → c ≢ star
    → glob_nodes after (c ∷ w) ≡ lit c ∷ glob_nodes false w
unfolding glob_nodes
glob_nodes-lit after c w e = ground arith

Globs-star : (c : ℕ) (w s : Text) → c ≡ star → Globs (star ∷ w) s → Globs (c ∷ w) s
Globs-star c w s e g = rw e g

matches_sound : (after : Bool) (w s : Text) → matches (glob_nodes after w) s ≡ true → Globs w s
matches_sound after [] s h = empty_sound s (unfold glob_nodes in h)
matches_sound true (c ∷ w) s h = elim (ℕ_discrete c star) [
  | yes e ↦ star_stop e (matches_sound true w s (rw (glob_nodes-star true c w e) at h))
  | no n ↦
      literal_sound c (glob_nodes false w) w n (matches_sound false w) s
        (rw (glob_nodes-lit true c w n) at h)
]
matches_sound false (c ∷ w) s h = elim (ℕ_discrete c star) [
  | yes e ↦ Globs-star c w s e (
      any_run_sound (glob_nodes true w) w (matches_sound true w) s
        (rw (glob_nodes-star false c w e) at h))
  | no n ↦
      literal_sound c (glob_nodes false w) w n (matches_sound false w) s
        (rw (glob_nodes-lit false c w n) at h)
]

matches_run : (ns : List Node) (s : Text) → matches ns s ≡ true → matches (any_run ∷ ns) s ≡ true
unfolding matches
matches_run ns [] h = h
matches_run ns (c ∷ s) h = ground arith

matches-lit :
    (c d : ℕ) (ns : List Node) (s : Text)
    → d ≡ c
    → matches ns s ≡ true
    → matches (lit c ∷ ns) (d ∷ s) ≡ true
unfolding matches
matches-lit c d ns s e h = ground arith

matches-run_more :
    (d : ℕ) (ns : List Node) (s : Text)
    → is_line_end d ≡ false
    → matches (any_run ∷ ns) s ≡ true
    → matches (any_run ∷ ns) (d ∷ s) ≡ true
unfolding matches
matches-run_more d ns s e h = ground arith

nil_complete :
    (matches (any_run ∷ glob_nodes true []) [] ≡ true) × (matches (glob_nodes false []) [] ≡ true)
unfolding matches glob_nodes
nil_complete = (refl, refl)

-- Completeness, and completeness within the run of stars that a star begins.
mutual
  complete_in_run : {w s : Text} → Globs w s → matches (any_run ∷ glob_nodes true w) s ≡ true
  complete_in_run nil = nil_complete.0
  complete_in_run (unit {c} {d} {w} {s} n e g) = rw (glob_nodes-lit true c w n) (
      matches_run (lit c ∷ glob_nodes false w) (d ∷ s)
        (matches-lit c d (glob_nodes false w) s e (complete g)))
  complete_in_run (star_stop {c} {w} {s} e g) = rw (glob_nodes-star true c w e) (complete_in_run g)
  complete_in_run (star_more {c} {d} {w} {s} e l g) =
      matches-run_more d (glob_nodes true (c ∷ w)) s l (complete_in_run g)

  complete : {w s : Text} → Globs w s → matches (glob_nodes false w) s ≡ true
  complete nil = nil_complete.1
  complete (unit {c} {d} {w} {s} n e g) =
      rw (glob_nodes-lit false c w n) (matches-lit c d (glob_nodes false w) s e (complete g))
  complete (star_stop {c} {w} {s} e g) = rw (glob_nodes-star false c w e) (complete_in_run g)
  complete (star_more {c} {d} {w} {s} e l g) = rw (glob_nodes-star false c w e) (
      matches-run_more d (glob_nodes true w) s l (rw (glob_nodes-star false c w e) at (complete g)))

wildcard_test-eq : (w s : Text) → wildcard_test w s ≡ matches (glob_nodes false w) s
unfolding wildcard_test reg_exp_test
wildcard_test-eq w s = ap (λ o. test_nodes o s) (parse-wildcard w)

-- The expression that is built for a wildcard matches a text exactly if the wildcard stands for it:
-- a star for any text with no line end, every other code unit for itself alone.
pub wildcard_test_iff : (w s : Text) → (wildcard_test w s ≡ true) ↔ Globs w s
wildcard_test_iff w s = rw (wildcard_test-eq w s) ((matches_sound false w s, complete))
