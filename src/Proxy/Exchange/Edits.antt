-- ===== src/Proxy/Exchange/Edits.antt =====
-- What `proxy_request_inner` sends upstream after a decision of the user.
use aiautotest.Common.{
  if◌then◌else◌, Bool-cases, ◌≡◌, refl, sym, subst, ◌⊎◌, inl, inr, true, false, Option, none, some,
  ◌++◌, length, Text, text, if-intro,
}
use aiautotest.Auth.{Result, ok, err}
use aiautotest.Proxy.Intercept.{
  InterceptDecision, InterceptEdit, forwarded, dropped, should_intercept_request,
}
use aiautotest.Proxy.Rules.{Crates}
use aiautotest.Workflow.Exec.State.{show}
use aiautotest.Proxy.Exchange.{
  edited_url, with_length, edited, Wire, ProxyError, missing_target_host, bad_request, Request,
  Server, Draft, Upstream, parse_edited_url, insert_named, origin, draft_of, url_of, set_body,
  rewrite, headers_from_intercept, apply_edit, decide, intercepted, forwardable, upstream_of,
  asks_crl, prepare, Sent, not_sent, serve_crl, sent, send_draft, handle, exchange,
}

module _ {crates : Crates} (wire : Wire crates) where
  open crates use {HeaderMap, HeaderValue, header_value}
  open wire use {is_uri, is_method, parse_uri}

  -- A request goes to the URL that the user left, if that is one.
  abbrev pub IsMoved : Option (Text × Text × Text) → (uri : Text) → Type 0
  IsMoved none uri = Unit
  IsMoved (some (scheme, host, path)) uri = uri ≡ scheme ++ (text "://" ++ (host ++ path))

  abbrev pub add_length : Option HeaderValue → HeaderMap → HeaderMap
  add_length none headers = headers
  add_length (some value) headers = insert_named crates wire (text "content-length") value headers

  -- The body and the headers that the user left, the length that goes with them, the method that the
  -- user left if it is one, and the URL.
  abbrev pub IsEdited : (len : Option HeaderValue) → InterceptEdit → Upstream crates wire → Type 0
  IsEdited len edit u =
      (u.body ≡ edit.body)
      × (u.headers
          ≡ forwardable crates wire
              (add_length len (headers_from_intercept crates wire edit.headers)))
      × (is_method edit.method ≡ false ⊎ u.method ≡ edit.method)
      × IsMoved (parse_edited_url parse_uri edit.url) u.uri

  abbrev pub IsDecided : InterceptDecision → Sent crates wire → Type 0
  IsDecided dropped (sent u) = ⊥
  IsDecided (forwarded (some edit)) (sent u) =
      IsEdited (header_value (show (length edit.body))) edit u
  IsDecided _ _ = Unit

  abbrev EditsTo :
      Option HeaderValue → InterceptEdit → Result ProxyError (Draft crates wire) → Type 0
  EditsTo len edit (err e) = Unit
  EditsTo len edit (ok d) = IsEdited len edit (upstream_of crates wire d)

  edited_url-IsMoved :
      (o : Option (Text × Text × Text)) (d : Draft crates wire)
      → IsMoved o (url_of crates wire (edited_url crates wire o d))
  unfolding edited_url url_of
  edited_url-IsMoved none d = tt
  edited_url-IsMoved (some (scheme, host, path)) d = refl

  method_of-edit :
      (edit : InterceptEdit) (method : Text)
      → is_method edit.method ≡ false
        ⊎ (if is_method edit.method then edit.method else method) ≡ edit.method
  method_of-edit edit method = elim (Bool-cases (is_method edit.method)) [
    | inl e ↦ inr (rw e refl)
    | inr e ↦ inl e
  ]

  with_length-EditsTo :
      (len : Option HeaderValue) (edit : InterceptEdit) (d : Draft crates wire)
      → EditsTo len edit (
          with_length crates wire len edit.body
            (record (edited_url crates wire (parse_edited_url parse_uri edit.url) d) {
              method = if is_method edit.method then edit.method else d.method;
              headers = headers_from_intercept crates wire edit.headers;
            }))
  unfolding with_length upstream_of url_of
  with_length-EditsTo none edit d = tt
  with_length-EditsTo (some value) edit d = (
    refl,
    refl,
    method_of-edit edit d.method,
    edited_url-IsMoved (parse_edited_url parse_uri edit.url) d,
  )

  edited-IsDecided :
      (edit : InterceptEdit) (o : Result ProxyError (Draft crates wire))
      → EditsTo (header_value (show (length edit.body))) edit o
      → IsDecided (forwarded (some edit)) (send_draft crates wire (edited crates wire o))
  unfolding edited send_draft
  edited-IsDecided edit (err e) h = tt
  edited-IsDecided edit (ok d) h =
      if-intro (IsDecided (forwarded (some edit))) (is_uri (url_of crates wire d))
        (sent (upstream_of crates wire d)) (not_sent bad_request) (λ _. h) (λ _. tt)

  decide-IsDecided :
      (decision : InterceptDecision) (d : Draft crates wire)
      → IsDecided decision (send_draft crates wire (decide crates wire decision d))
  unfolding decide send_draft apply_edit set_body
  decide-IsDecided dropped d = tt
  decide-IsDecided (forwarded none) d =
      if-intro (IsDecided (forwarded none)) (is_uri (url_of crates wire d))
        (sent (upstream_of crates wire d)) (not_sent bad_request) (λ _. tt) (λ _. tt)
  decide-IsDecided (forwarded (some edit)) d =
      edited-IsDecided edit (apply_edit crates wire edit d)
        (with_length-EditsTo (header_value (show (length edit.body))) edit d)

  IsDecided-err : (decision : InterceptDecision) (e : ProxyError) → IsDecided decision (not_sent e)
  IsDecided-err dropped e = tt
  IsDecided-err (forwarded none) e = tt
  IsDecided-err (forwarded (some edit)) e = tt

  IsDecided-serve_crl : (decision : InterceptDecision) → IsDecided decision serve_crl
  IsDecided-serve_crl dropped = tt
  IsDecided-serve_crl (forwarded none) = tt
  IsDecided-serve_crl (forwarded (some edit)) = tt

  intercepted-IsDecided :
      (decision : InterceptDecision) (o : Result ProxyError (Draft crates wire))
      → IsDecided decision (send_draft crates wire (intercepted crates wire true decision o))
  unfolding intercepted send_draft
  intercepted-IsDecided decision (err e) = IsDecided-err decision e
  intercepted-IsDecided decision (ok d) = decide-IsDecided decision d

  prepare-IsDecided :
      (server : Server crates wire) (decision : InterceptDecision) (r : Request crates wire)
      (scheme host : Text)
      → should_intercept_request server.intercept ≡ true
      → IsDecided decision
          (send_draft crates wire (prepare crates wire server decision r scheme host))
  unfolding prepare
  prepare-IsDecided server decision r scheme host on =
      subst
        (λ b. IsDecided decision (
          send_draft crates wire (
            intercepted crates wire b decision
              (rewrite crates wire server (draft_of crates wire r scheme host)))))
        (sym on)
        (intercepted-IsDecided decision
          (rewrite crates wire server (draft_of crates wire r scheme host)))

  handle-IsDecided :
      (server : Server crates wire) (decision : InterceptDecision) (r : Request crates wire)
      (target : Option (Text × Text))
      → should_intercept_request server.intercept ≡ true
      → IsDecided decision (handle crates wire server decision r target)
  unfolding handle
  handle-IsDecided server decision r none on = IsDecided-err decision missing_target_host
  handle-IsDecided server decision r (some (scheme, host)) on =
      if-intro (IsDecided decision) (asks_crl crates wire r) serve_crl
        (send_draft crates wire (prepare crates wire server decision r scheme host))
        (λ _. IsDecided-serve_crl decision)
        (λ _. prepare-IsDecided server decision r scheme host on)

  -- Where requests are intercepted, whatever the rules did to a request before: if the user drops it,
  -- nothing goes upstream; if the user edits it, what goes upstream, if anything does, has the edited
  -- body, the edited headers with the length of that body and without the hop-by-hop ones, the edited
  -- method if it is a method, and the edited URL if it is one.
  pub exchange-IsDecided :
      (server : Server crates wire) (decision : InterceptDecision) (r : Request crates wire)
      → should_intercept_request server.intercept ≡ true
      → IsDecided decision (exchange crates wire server decision r)
  unfolding exchange
  exchange-IsDecided server decision r on =
      handle-IsDecided server decision r (origin crates wire r) on
