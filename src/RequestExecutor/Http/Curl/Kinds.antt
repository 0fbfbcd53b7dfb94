-- ===== src/RequestExecutor/Http/Curl/Kinds.antt =====
-- The options of a handle by what they are about, and what a list of them says.
use bright_cli.Prelude.{
  ◌≡◌, refl, ap, ◌∙◌, Bool, true, false, Option, none, some, List, [], ◌∷◌, ◌++◌, Text, filter_by,
  filter_by-append, arith,
}
use bright_cli.RequestExecutor.Http.Curl.{
  Setting, shared_multi, userpwd, tcp_keepalive, tcp_keepidle, fresh_connect, forbid_reuse,
  http_header, if_text,
}

-- The options that matter together: the connection, the header lines, and the credentials.
pub data Kind : Type 0 where
  connection headers credentials : Kind

abbrev pub is_of : Kind → Setting → Bool
is_of connection shared_multi = true
is_of connection (tcp_keepalive n) = true
is_of connection (tcp_keepidle n) = true
is_of connection (fresh_connect n) = true
is_of connection (forbid_reuse n) = true
is_of headers (http_header ls) = true
is_of credentials (userpwd t) = true
is_of _ _ = false

abbrev pub of_kind : Kind → List Setting → List Setting
of_kind k ss = filter_by (is_of k) ss

pub of_kind-if_text :
    (k : Kind) (o : Option Text) (f : Text → List Setting)
    → ((t : Text) → of_kind k (f t) ≡ [])
    → of_kind k (if_text o f) ≡ []
of_kind-if_text k none f h = refl
of_kind-if_text k (some t) f h = ground (arith, h t)

pub of_kind-skip :
    (k : Kind) (part rest : List Setting)
    → of_kind k part ≡ []
    → of_kind k (part ++ rest) ≡ of_kind k rest
of_kind-skip k part rest h = filter_by-append (is_of k) part rest ∙ ap (λ l. l ++ of_kind k rest) h

abbrev pub is_shared : Setting → Bool
is_shared shared_multi = true
is_shared _ = false

abbrev pub is_closing : Setting → Bool
is_closing (forbid_reuse n) = true
is_closing _ = false

-- The header lines of a list of options.
abbrev pub sent_lines : List Setting → List Text
sent_lines [] = []
sent_lines (http_header ls ∷ ss) = ls ++ sent_lines ss
sent_lines (_ ∷ ss) = sent_lines ss

-- The user name and password that the last of the options sets.
abbrev pub credential_of : Option Text → List Setting → Option Text
credential_of before [] = before
credential_of before (userpwd t ∷ ss) = credential_of (some t) ss
credential_of before (_ ∷ ss) = credential_of before ss

pub is_shared-connection : (s : Setting) → is_shared s ≡ true → is_of connection s ≡ true
is_shared-connection shared_multi h = refl
is_shared-connection _ h = ground arith

pub is_closing-connection : (s : Setting) → is_closing s ≡ true → is_of connection s ≡ true
is_closing-connection shared_multi h = ground arith
is_closing-connection _ h = ground arith

pub credential_of-append :
    (before : Option Text) (ss ts : List Setting)
    → credential_of before (ss ++ ts) ≡ credential_of (credential_of before ss) ts
credential_of-append before [] ts = refl
credential_of-append before (userpwd t ∷ ss) ts = credential_of-append (some t) ss ts
credential_of-append before (_ ∷ ss) ts = credential_of-append before ss ts

pub sent_lines-of_kind : (ss : List Setting) → sent_lines ss ≡ sent_lines (of_kind headers ss)
sent_lines-of_kind [] = refl
sent_lines-of_kind (http_header ls ∷ ss) = ap (λ l. ls ++ l) (sent_lines-of_kind ss)
sent_lines-of_kind (_ ∷ ss) = sent_lines-of_kind ss

pub credential_of-of_kind :
    (before : Option Text) (ss : List Setting)
    → credential_of before ss ≡ credential_of before (of_kind credentials ss)
credential_of-of_kind before [] = refl
credential_of-of_kind before (userpwd t ∷ ss) = credential_of-of_kind (some t) ss
credential_of-of_kind before (_ ∷ ss) = credential_of-of_kind before ss
