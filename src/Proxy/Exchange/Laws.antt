-- ===== src/Proxy/Exchange/Laws.antt =====
-- What `proxy_request_inner` sends upstream without the user, and of what form it is.
use aiautotest.Common.{
  Bool-cases, ◌≡◌, refl, ap, ◌∙◌, inl, inr, Bool, true, false, not, Option, none, some, List, [],
  ◌∷◌, ◌++◌, filter, All, Text, text, text_eq_refl, if-intro,
}
use aiautotest.Auth.{Result, ok, err}
use aiautotest.Domain.Rules.{RuleDirection, same_direction}
use aiautotest.Proxy.Http.Utf8.{is_utf8, from_utf8_lossy}
use aiautotest.Proxy.Intercept.{InterceptDecision, should_intercept_request}
use aiautotest.Proxy.Relay.{is_hop_by_hop}
use aiautotest.Proxy.Rules.{
  Crates, CompiledRule, rewrite_headers, rewrite_body, rewrite_url, apply_to_url, apply_to_body,
  apply_to_request_headers,
}
use aiautotest.Proxy.Exchange.{
  Wire, ProxyError, Request, Server, Draft, Upstream, origin, path_of, draft_of, url_of,
  rewrite_url_of, rewrite_headers_of, rewrite_body_of, rewrite, intercepted, forwardable,
  upstream_of, asks_crl, prepare, Sent, serve_crl, sent, send_draft, handle, exchange,
}

module _ {crates : Crates} where
  open crates use {HeaderMap}

  -- No rule is for requests.
  abbrev pub IsSilent : List (CompiledRule crates) → Type 0
  IsSilent rules = All (λ rule. same_direction rule.direction RuleDirection.request ≡ false) rules

  rewrite_headers-IsSilent :
      (rules : List (CompiledRule crates)) (path : Text) (body : Option Text) (headers : HeaderMap)
      → IsSilent rules
      → rewrite_headers crates RuleDirection.request rules path body headers ≡ headers
  unfolding rewrite_headers
  rewrite_headers-IsSilent [] path body headers h = refl
  rewrite_headers-IsSilent (rule ∷ rules) path body headers (h, hs) =
      rw h (rewrite_headers-IsSilent rules path body headers hs)

  rewrite_body-IsSilent :
      (rules : List (CompiledRule crates)) (headers : HeaderMap) (path body : Text)
      → IsSilent rules
      → rewrite_body crates RuleDirection.request rules headers path body ≡ body
  unfolding rewrite_body
  rewrite_body-IsSilent [] headers path body h = refl
  rewrite_body-IsSilent (rule ∷ rules) headers path body (h, hs) =
      rw h (rewrite_body-IsSilent rules headers path body hs)

  rewrite_url-IsSilent :
      (rules : List (CompiledRule crates)) (headers : HeaderMap) (path : Text) (body : Option Text)
      (url : Text)
      → IsSilent rules
      → rewrite_url crates rules headers path body url ≡ url
  unfolding rewrite_url
  rewrite_url-IsSilent [] headers path body url h = refl
  rewrite_url-IsSilent (rule ∷ rules) headers path body url (h, hs) =
      rw h (rewrite_url-IsSilent rules headers path body url hs)

module _ {crates : Crates} (wire : Wire crates) where
  open crates use {HeaderMap, HeaderValue, header_value}
  open wire use {is_uri, is_method, parse_uri}

  rewrite_url_of-IsSilent :
      (server : Server crates wire) (d : Draft crates wire)
      → IsSilent server.rules.compiled
      → rewrite_url_of crates wire server d ≡ d
  unfolding rewrite_url_of apply_to_url
  rewrite_url_of-IsSilent server d h =
      rw
        (
          rewrite_url-IsSilent server.rules.compiled d.headers d.path
              (some (from_utf8_lossy d.body)) (url_of crates wire d) h,
          text_eq_refl (url_of crates wire d),
        )
        refl

  rewrite_headers_of-IsSilent :
      (server : Server crates wire) (body_text : Text) (d : Draft crates wire)
      → IsSilent server.rules.compiled
      → rewrite_headers_of crates wire server body_text d ≡ d
  unfolding rewrite_headers_of apply_to_request_headers
  rewrite_headers_of-IsSilent server body_text d h =
      rw (rewrite_headers-IsSilent server.rules.compiled d.path (some body_text) d.headers h) refl

  rewrite_body_of-IsSilent :
      (server : Server crates wire) (d : Draft crates wire)
      → IsSilent server.rules.compiled
      → rewrite_body_of crates wire server d ≡ ok d
  unfolding rewrite_body_of apply_to_body
  rewrite_body_of-IsSilent server d h =
      rw
        (rewrite_body-IsSilent server.rules.compiled d.headers d.path d.body h, text_eq_refl d.body)
        (elim (Bool-cases (is_utf8 d.body)) [ inl e ↦ rw e refl | inr e ↦ rw e refl ])

  rewrite-IsSilent :
      (server : Server crates wire) (d : Draft crates wire)
      → IsSilent server.rules.compiled
      → rewrite crates wire server d ≡ ok d
  unfolding rewrite
  rewrite-IsSilent server d h =
      ap
        (λ d'.
          rewrite_body_of crates wire server
            (rewrite_headers_of crates wire server (from_utf8_lossy d.body) d'))
        (rewrite_url_of-IsSilent server d h)
      ∙ ap (rewrite_body_of crates wire server)
          (rewrite_headers_of-IsSilent server (from_utf8_lossy d.body) d h)
      ∙ rewrite_body_of-IsSilent server d h

  -- Where no rule is for requests and no request is intercepted, whatever the decision, a request
  -- whose target is known, that is not for the revocation list and whose URL can be sent goes upstream
  -- unchanged but for the hop-by-hop headers: with its method, its body, its other headers in their
  -- order, and the URL of the target.
  pub exchange-transparent :
      (server : Server crates wire) (decision : InterceptDecision) (r : Request crates wire)
      (scheme host : Text)
      → IsSilent server.rules.compiled
      → should_intercept_request server.intercept ≡ false
      → origin crates wire r ≡ some (scheme, host)
      → asks_crl crates wire r ≡ false
      → is_uri (url_of crates wire (draft_of crates wire r scheme host)) ≡ true
      → exchange crates wire server decision r
        ≡ sent (record {
          method = r.method;
          uri = scheme ++ (text "://" ++ (host ++ path_of crates wire r));
          headers = forwardable crates wire r.headers;
          body = r.body;
        })
  unfolding exchange handle prepare send_draft intercepted upstream_of draft_of url_of
  exchange-transparent server decision r scheme host silent off target crl valid =
      rw
        (
          target,
          crl,
          off,
          rewrite-IsSilent server (draft_of crates wire r scheme host) silent,
          valid,
        )
        refl

  All-filter-not :
      {A : Type 0} (p : A → Bool) (xs : List A)
      → All (λ x. p x ≡ false) (filter (λ x. not (p x)) xs)
  All-filter-not p [] = tt
  All-filter-not p (x ∷ xs) = elim (Bool-cases (p x)) [
    | inl e ↦ rw e (All-filter-not p xs)
    | inr e ↦ rw e (e, All-filter-not p xs)
  ]

  -- No header that is forwarded is a hop-by-hop header.
  abbrev pub IsEndToEnd : List (Text × crates.HeaderValue) → Type 0
  IsEndToEnd headers = All (λ h. is_hop_by_hop h.0 ≡ false) headers

  pub forwardable-IsEndToEnd :
      (headers : crates.HeaderMap) → IsEndToEnd (forwardable crates wire headers)
  unfolding forwardable
  forwardable-IsEndToEnd headers = All-filter-not (λ h. is_hop_by_hop h.0) (wire.entries headers)

  -- A request that may go upstream: its URL can be sent, and no header is a hop-by-hop header.
  abbrev pub IsForwardable : Upstream crates wire → Type 0
  IsForwardable u = (is_uri u.uri ≡ true) × IsEndToEnd u.headers

  abbrev pub IsFit : Sent crates wire → Type 0
  IsFit (sent u) = IsForwardable u
  IsFit _ = Unit

  send_draft-IsFit :
      (o : Result ProxyError (Option (Draft crates wire))) → IsFit (send_draft crates wire o)
  unfolding send_draft upstream_of
  send_draft-IsFit (err e) = tt
  send_draft-IsFit (ok none) = tt
  send_draft-IsFit (ok (some d)) = elim (Bool-cases (is_uri (url_of crates wire d))) [
    | inl e ↦ rw e (e, forwardable-IsEndToEnd d.headers)
    | inr e ↦ rw e tt
  ]

  handle-IsFit :
      (server : Server crates wire) (decision : InterceptDecision) (r : Request crates wire)
      (target : Option (Text × Text))
      → IsFit (handle crates wire server decision r target)
  unfolding handle
  handle-IsFit server decision r none = tt
  handle-IsFit server decision r (some (scheme, host)) =
      if-intro IsFit (asks_crl crates wire r) serve_crl
        (send_draft crates wire (prepare crates wire server decision r scheme host)) (λ _. tt)
        (λ _. send_draft-IsFit (prepare crates wire server decision r scheme host))

  -- Whatever the rules, the edit of the user and the request: what goes upstream has a URL that can be
  -- sent and no hop-by-hop header.
  pub exchange-IsFit :
      (server : Server crates wire) (decision : InterceptDecision) (r : Request crates wire)
      → IsFit (exchange crates wire server decision r)
  unfolding exchange
  exchange-IsFit server decision r = handle-IsFit server decision r (origin crates wire r)
