-- ===== src/RequestExecutor/Http/Curl/Laws.antt =====
-- What the options of a configured handle say together.
use bright_cli.Prelude.{
  ◌≡◌, refl, sym, ap, ◌∙◌, true, not, ◌||◌, Option, none, some, List, [], ◌∷◌, ◌++◌, append-nil,
  Text, codes, any, All, map, any-filter_by_of_imp, filter_by-append, arith,
}
use bright_cli.RequestExecutor.Options.{Request, KerberosOptions}
use bright_cli.RequestExecutor.Http.{HttpRequestExecutor, resolve_proxy, should_apply_kerberos}
use bright_cli.RequestExecutor.Http.Curl.{
  Platform, proxy, custom_request, if_text, build_curl_headers, apply_curl_body, apply_curl_tls,
  apply_curl_timeout, hostname, shares_connection, extra_lines, header_setting, apply_curl_headers,
  apply_curl_connection, apply_curl_kerberos, apply_curl_url, configure_curl, non_empty_or,
}
use bright_cli.RequestExecutor.Http.Curl.Fields.{
  HeaderField, AreFields, IsAdded, HasNoColon, read_field, added_field, added_field-IsAdded,
  extra_lines-fields, read_field-build_curl_headers,
}
use bright_cli.RequestExecutor.Http.Curl.Kinds.{
  Kind, connection, headers, credentials, is_of, of_kind, is_shared, is_closing, sent_lines,
  credential_of, is_shared-connection, is_closing-connection, credential_of-append,
  sent_lines-of_kind, credential_of-of_kind, of_kind-if_text,
}

module _ (platform : Platform) (x : HttpRequestExecutor) (request : Request) where
  body_kinds : (k : Kind) → of_kind k (apply_curl_body platform x request) ≡ []
  unfolding apply_curl_body
  body_kinds connection = of_kind-if_text connection request.body _ (λ t. refl)
  body_kinds headers = of_kind-if_text headers request.body _ (λ t. refl)
  body_kinds credentials = of_kind-if_text credentials request.body _ (λ t. refl)

  tls_kinds : (k : Kind) → of_kind k (apply_curl_tls platform x request) ≡ []
  unfolding apply_curl_tls
  tls_kinds connection = ground arith
  tls_kinds _ = ground arith

  timeout_kinds : (k : Kind) → of_kind k (apply_curl_timeout platform x request) ≡ []
  unfolding apply_curl_timeout
  timeout_kinds connection = ground arith
  timeout_kinds _ = ground arith

  proxy_kinds :
      (k : Kind) (o : Option Text)
      → of_kind k
          (if_text o (λ proxy_url. proxy proxy_url ∷ []) ++ custom_request request.method ∷ [])
        ≡ []
  proxy_kinds connection o = ground arith
  proxy_kinds _ o = ground arith

  abbrev lines : List Text
  lines = build_curl_headers request.headers ++ extra_lines platform x request

  header_kinds :
      (ls : List Text)
      → (of_kind connection (header_setting platform x request ls) ≡ [])
        × (of_kind headers (header_setting platform x request ls)
            ≡ header_setting platform x request ls)
        × (of_kind credentials (header_setting platform x request ls) ≡ [])
  header_kinds [] = (refl, refl, refl)
  header_kinds (l ∷ ls) = (refl, refl, refl)

  -- The parts whose options matter.
  of_kind-configure_curl :
      (k : Kind)
      → of_kind k (configure_curl platform x request)
        ≡ of_kind k (apply_curl_url platform x request)
          ++ (of_kind k (apply_curl_headers platform x request)
              ++ (of_kind k (apply_curl_connection platform x request)
                  ++ of_kind k (apply_curl_kerberos platform x request)))
  unfolding configure_curl
  of_kind-configure_curl k =
      simp (filter_by-append, body_kinds k, tls_kinds k, timeout_kinds k)
        (rw (tail_kinds, append-nil) refl)
    where
      tail_kinds :
          of_kind k (
              if_text
                (resolve_proxy x (hostname platform x request))
                (λ proxy_url. proxy proxy_url ∷ []))
            ++ of_kind k (custom_request request.method ∷ [])
          ≡ []
      tail_kinds =
          sym (
            filter_by-append (is_of k)
              (if_text (resolve_proxy x (hostname platform x request))
                (λ proxy_url. proxy proxy_url ∷ []))
              (custom_request request.method ∷ []))
          ∙ proxy_kinds k (resolve_proxy x (hostname platform x request))

  connection_parts :
      (of_kind connection (apply_curl_url platform x request) ≡ [])
      × (of_kind connection (apply_curl_headers platform x request) ≡ [])
      × (of_kind connection (apply_curl_connection platform x request)
          ≡ apply_curl_connection platform x request)
      × (of_kind connection (apply_curl_kerberos platform x request) ≡ [])
  unfolding apply_curl_url apply_curl_headers apply_curl_connection apply_curl_kerberos
  connection_parts = (ground arith, ground (arith, header_kinds lines), ground arith, ground arith)

  header_parts :
      (of_kind headers (apply_curl_url platform x request) ≡ [])
      × (of_kind headers (apply_curl_headers platform x request)
          ≡ header_setting platform x request lines)
      × (of_kind headers (apply_curl_connection platform x request) ≡ [])
      × (of_kind headers (apply_curl_kerberos platform x request) ≡ [])
  unfolding apply_curl_url apply_curl_headers apply_curl_connection apply_curl_kerberos
  header_parts = (ground arith, ground (arith, header_kinds lines), ground arith, ground arith)

  credential_parts :
      (of_kind credentials (apply_curl_headers platform x request) ≡ [])
      × (of_kind credentials (apply_curl_connection platform x request) ≡ [])
  unfolding apply_curl_url apply_curl_headers apply_curl_connection
  credential_parts = (ground (arith, header_kinds lines), ground arith)

  configure_kinds :
      (of_kind connection (configure_curl platform x request)
        ≡ apply_curl_connection platform x request)
      × (of_kind headers (configure_curl platform x request)
          ≡ header_setting platform x request lines)
  configure_kinds =
      let (a, b, c, d) = connection_parts in
      let (e, f, g, h) = header_parts in
      (
        of_kind-configure_curl connection ∙ simp (a, b, c, d, append-nil),
        of_kind-configure_curl headers ∙ simp (e, f, g, h, append-nil),
      )

  shared_part :
      any is_shared (apply_curl_connection platform x request)
      ≡ shares_connection platform x request
  unfolding apply_curl_connection
  shared_part = ground arith

  closing_part :
      any is_closing (apply_curl_connection platform x request)
      ≡ not (shares_connection platform x request)
  unfolding apply_curl_connection
  closing_part = ground arith

  sent_lines-header_setting :
      (ls : List Text) → sent_lines (header_setting platform x request ls) ≡ ls
  sent_lines-header_setting [] = refl
  sent_lines-header_setting (l ∷ ls) = append-nil (l ∷ ls)

  -- Every request shares connections exactly if reuse is configured or Kerberos applies to it, and
  -- otherwise forbids reuse, never both. If no header name has a colon, the header lines sent, each
  -- read up to its first colon, are the fields that the headers of the request stand for, one for
  -- each value, in order, and after them `Connection: close` exactly if connections are not shared
  -- and no header has that name, and `Accept-Encoding: identity` exactly if the request is not
  -- decompressed and no header has that name.
  pub configure_curl_lem :
      All (λ e. HasNoColon e.0) request.headers
      → let settings = configure_curl platform x request in
        let shared =
          x.options.reuse_connection || should_apply_kerberos x (hostname platform x request) in
        (any is_shared settings ≡ shared)
        × (any is_closing settings ≡ not shared)
        × (fields : List HeaderField) × (closing : List HeaderField) × (encoding : List HeaderField)
        × AreFields request.headers fields
        × IsAdded request.headers (codes "Connection") (codes "close") (not shared) closing
        × IsAdded request.headers
            (codes "Accept-Encoding")
            (codes "identity")
            (not request.decompress)
            encoding
        × (map read_field (sent_lines settings) ≡ fields ++ (closing ++ encoding))
  unfolding shares_connection
  configure_curl_lem no_colons =
      let (c, h) = configure_kinds in
      let settings = configure_curl platform x request in
      (
        any-filter_by_of_imp is_shared (is_of connection) is_shared-connection settings
            ∙ ap (any is_shared) c
            ∙ shared_part,
        any-filter_by_of_imp is_closing (is_of connection) is_closing-connection settings
            ∙ ap (any is_closing) c
            ∙ closing_part,
        map read_field (build_curl_headers request.headers),
        added_field request.headers (codes "Connection") (codes "close")
            (not (shares_connection platform x request)),
        added_field request.headers (codes "Accept-Encoding") (codes "identity")
            (not request.decompress),
        read_field-build_curl_headers request.headers no_colons,
        added_field-IsAdded request.headers (codes "Connection") (codes "close")
            (not (shares_connection platform x request)),
        added_field-IsAdded request.headers (codes "Accept-Encoding") (codes "identity")
            (not request.decompress),
        ap (map read_field)
              (sent_lines-of_kind settings ∙ ap sent_lines h ∙ sent_lines-header_setting lines)
            ∙ extra_lines-fields platform x request (build_curl_headers request.headers),
      )

  kerberos_credential :
      (k : KerberosOptions)
      → x.options.kerberos ≡ some k
      → should_apply_kerberos x (hostname platform x request) ≡ true
      → (before : Option Text)
      → credential_of before (of_kind credentials (apply_curl_kerberos platform x request))
        ≡ some (non_empty_or platform x request k.credentials (codes ":"))
  unfolding apply_curl_kerberos
  kerberos_credential k h a before = rw (a, h) (ground arith)

  credentials_only :
      of_kind credentials (configure_curl platform x request)
      ≡ of_kind credentials (apply_curl_url platform x request)
        ++ of_kind credentials (apply_curl_kerberos platform x request)
  credentials_only =
      of_kind-configure_curl credentials ∙ rw (credential_parts.0, credential_parts.1)

  -- Where Kerberos applies to a request, the last credentials that are set are the configured ones,
  -- or `:` if there are none, whatever credentials its URL holds.
  pub configure_curl-kerberos :
      (k : KerberosOptions)
      → x.options.kerberos ≡ some k
      → should_apply_kerberos x (hostname platform x request) ≡ true
      → credential_of none (configure_curl platform x request)
        ≡ some (non_empty_or platform x request k.credentials (codes ":"))
  configure_curl-kerberos k h a =
      credential_of-of_kind none (configure_curl platform x request)
      ∙ ap (credential_of none) credentials_only
      ∙ credential_of-append none (of_kind credentials (apply_curl_url platform x request))
          (of_kind credentials (apply_curl_kerberos platform x request))
      ∙ kerberos_credential k h a
          (credential_of none (of_kind credentials (apply_curl_url platform x request)))
