-- ===== src/Rest/Client/Calls/Reachable.antt =====
-- What holds of a client's token whatever calls are made.
use brickstor_csi_driver.Base.{
  ◌≡◌, refl, sym, ◌∙◌, inl, inr, true, false, Bool, Text, codes, [], none, Option, ok, err, panic,
  Outcome, Error, Keeps, >>=-Keeps, attempt-Keeps, attempt, Option-cases, ℤ, ◌==◌, Attempt, value,
  failed, trim_prefix, ◌++◌,
}
use brickstor_csi_driver.Rest.Client.{AuthHeader, Client, Net, Session, HttpResponse, new_client}
use brickstor_csi_driver.Rest.Client.Login.{login, new_token, request_to, on_world, returned}
use brickstor_csi_driver.Rest.Client.Login.Tokens.{
  IsSettled, login-IsSettled, login-none, with_certificates-same,
}
use brickstor_csi_driver.Rest.Client.Calls.{
  Call, create_request, request_for, send_body, send, get, post, post_again, after_attempt,
  retry_if, after_answer, decode_response, answered, encoding,
}

-- A client without credentials has no token, and a client without a token has no claims.
abbrev pub IsWellFormed : Client → Type 0
IsWellFormed c = (c.auth ≡ none → c.token ≡ []) × (c.token ≡ [] → c.claims ≡ none)

module _ {W : Type 0} (net : Net W) where
  abbrev WellFormed : Session W → Type 0
  WellFormed s = IsWellFormed s.client

  settled-WellFormed : (r : Outcome (Unit {0}) × Session W) → IsSettled r → IsWellFormed r.1.client
  settled-WellFormed r (inl (e, (there, can))) = (λ q. absurd (can q), λ q. absurd (there q))
  settled-WellFormed r (inr (e, (no_token, no_claims, can))) = (λ q. no_token, λ q. no_claims)

  login-WellFormed : Keeps WellFormed (login net)
  login-WellFormed s w = elim (Option-cases s.client.auth) [
    | inl e ↦ rw (login-none net s e) w
    | inr (a, e) ↦ settled-WellFormed (login net s) (login-IsSettled net a s e)
  ]

  new_token-WellFormed : Keeps WellFormed (new_token net)
  unfolding new_token
  new_token-WellFormed s (no_auth, no_token) =
      let t : Session W = record s { client = record s.client { token = [] } } in
      elim (Option-cases s.client.auth) [
        | inl e ↦ rw (login-none net t e) (λ q. refl, λ q. no_token (no_auth e))
        | inr (a, e) ↦ settled-WellFormed (login net t) (login-IsSettled net a t e)
      ]

  request_to-WellFormed :
      (method url body : Text) (report : Error → Error)
      → Keeps WellFormed (request_to net method url body report)
  unfolding request_to
  request_to-WellFormed method url body report s (no_auth, no_token) =
      elim (Option-cases (net.request_error method url)) [
        | inr (x, e) ↦ rw (e, request_to) (no_auth, no_token)
        | inl e ↦
            let (t, c, a) = with_certificates-same s.client in
            rw (e, request_to) (λ q. t ∙ no_auth (sym a ∙ q), λ q. c ∙ no_token (sym t ∙ q))
      ]

  create_request-WellFormed :
      (method path body : Text) → Keeps WellFormed (create_request net method path body)
  unfolding create_request request_for
  create_request-WellFormed method path body =
      >>=-Keeps WellFormed (login net) (λ u. request_for net method path body) login-WellFormed
        (λ u s.
          request_to-WellFormed method (s.client.base_url ++ trim_prefix path s.client.base_url)
            body (λ e. e) s)

  send_body-WellFormed :
      (method path body : Text) → Keeps WellFormed (send_body net method path body)
  unfolding send_body
  send_body-WellFormed method path body =
      >>=-Keeps WellFormed (create_request net method path body)
        (λ req. on_world (net.do_request req)) (create_request-WellFormed method path body)
        (λ req s w. w)

  module _ {R : Type 0} where
    send-WellFormed : (method : Text) (call : Call R) → Keeps WellFormed (send net method call)
    unfolding send
    send-WellFormed method call =
        >>=-Keeps WellFormed (returned (encoding net call.encoded)) (send_body net method call.path)
          (λ s w. w) (send_body-WellFormed method call.path)

    get-WellFormed : (call : Call R) → Keeps WellFormed (get net call)
    unfolding get answered
    get-WellFormed call =
        >>=-Keeps WellFormed (send net (codes "GET") call) (answered net call)
          (send-WellFormed (codes "GET") call) (λ resp s w. w)

    post_again-WellFormed : (call : Call R) → Keeps WellFormed (post_again net call)
    unfolding post_again answered
    post_again-WellFormed call =
        >>=-Keeps WellFormed (attempt (new_token net)) (after_attempt net call)
          (attempt-Keeps WellFormed (new_token net) new_token-WellFormed) retry
      where
        retry : (r : Attempt (Unit {0})) → Keeps WellFormed (after_attempt net call r)
        retry (failed e) s w = w
        retry (value u) s w =
            >>=-Keeps WellFormed (send net (codes "POST") call) (answered net call)
              (send-WellFormed (codes "POST") call) (λ resp t v. v) s w

    retry_if-WellFormed :
        (denied : Bool) (call : Call R) (o : Outcome (Option R))
        → Keeps WellFormed (retry_if net denied call o)
    unfolding retry_if
    retry_if-WellFormed denied call (ok r) s w = w
    retry_if-WellFormed true call (err e) s w = post_again-WellFormed call s w
    retry_if-WellFormed false call (err e) s w = w
    retry_if-WellFormed denied call panic s w = w

    after_answer-WellFormed :
        (call : Call R) (resp : HttpResponse) → Keeps WellFormed (after_answer net call resp)
    unfolding after_answer
    after_answer-WellFormed call resp =
        retry_if-WellFormed (resp.status_code == 401) call (decode_response net call resp)

    post-WellFormed : (call : Call R) → Keeps WellFormed (post net call)
    unfolding post
    post-WellFormed call =
        >>=-Keeps WellFormed (send net (codes "POST") call) (after_answer net call)
          (send-WellFormed (codes "POST") call) (after_answer-WellFormed call)

  -- The states of a client that is made and then called, in any order and whatever comes of the
  -- calls.
  pub data Reachable : Session W → Type 1 where
    made :
        (url : Text) (idle : ℤ) (auth : Option AuthHeader) (w : W)
        → Reachable (record { client = new_client url idle auth; world = w })
    logged_in : (s : Session W) → Reachable s → Reachable (login net s).1
    renewed : (s : Session W) → Reachable s → Reachable (new_token net s).1
    got : {R : Type 0} (call : Call R) (s : Session W) → Reachable s → Reachable (get net call s).1
    posted :
        {R : Type 0} (call : Call R) (s : Session W) → Reachable s → Reachable (post net call s).1

  -- In every state that a client gets to from `NewBsrClient` by `login`, `newToken`, `Get` and
  -- `Post`, a client without credentials has no token, and one without a token has no claims.
  pub Reachable-IsWellFormed : (s : Session W) → Reachable s → IsWellFormed s.client
  unfolding new_client
  Reachable-IsWellFormed _ (made url idle auth w) = (λ q. refl, λ q. refl)
  Reachable-IsWellFormed _ (logged_in s r) = login-WellFormed s (Reachable-IsWellFormed s r)
  Reachable-IsWellFormed _ (renewed s r) = new_token-WellFormed s (Reachable-IsWellFormed s r)
  Reachable-IsWellFormed _ (got call s r) = get-WellFormed call s (Reachable-IsWellFormed s r)
  Reachable-IsWellFormed _ (posted call s r) = post-WellFormed call s (Reachable-IsWellFormed s r)
