-- ===== src/Rest/Client/Login/Bounds.antt =====
-- How many requests a login makes.
use brickstor_csi_driver.Base.{
  inl, inr, Bool-cases, ℕ, ◌+◌, ◌≤◌, arith, [], Text, codes, Error, ◌==◌, Costs, >>=-Costs,
  Option-cases,
}
use brickstor_csi_driver.Rest.Client.{AuthHeader, Net, Session, HttpRequest, HttpResponse}
use brickstor_csi_driver.Rest.Client.Login.{
  login, login_request, login_at, login_address, exchange, login_answer, by_status, keep_answer,
  keep_claims, keep_token, answer_token, token_claims, new_token, request_to, on_world, returned,
  read_body, without_token, cannot_create,
}
use brickstor_csi_driver.Rest.Client.Login.Tokens.{login-none, login-some}

-- A counter that a request raises by one at most.
abbrev pub IsRequestCounter : {W : Type 0} → Net W → (W → ℕ) → Type 0
IsRequestCounter net count =
    (req : HttpRequest) (w : _) → count (net.do_request req w).1 ≤ count w + 1

module _ {W : Type 0} (net : Net W) (count : W → ℕ) (asks : IsRequestCounter net count) where
  abbrev pub requests : Session W → ℕ
  requests s = count s.world

  keep_claims-Costs : (a : AuthHeader) (t : Text) → Costs requests 0 (keep_claims net a t)
  unfolding keep_claims keep_token
  keep_claims-Costs a t =
      >>=-Costs requests 0 0 (returned (token_claims net t)) (keep_token net a t) (λ s. omega arith)
        (λ c s. omega arith)

  keep_answer-Costs : (a : AuthHeader) (body : Text) → Costs requests 0 (keep_answer net a body)
  unfolding keep_answer
  keep_answer-Costs a body =
      >>=-Costs requests 0 0 (returned (answer_token net body)) (keep_claims net a)
        (λ s. omega arith) (keep_claims-Costs a)

  by_status-Costs :
      (a : AuthHeader) (code : ℕ) (body : Text) → Costs requests 0 (by_status net a code body)
  unfolding by_status
  by_status-Costs a code body s = elim (Bool-cases (code == 401)) [
    | inl e ↦ rw (e, by_status) (omega arith)
    | inr e ↦ elim (Bool-cases (code == 200)) [
      | inl f ↦ rw (e, f, by_status) (keep_answer-Costs a body s)
      | inr f ↦ rw (e, f, by_status) (omega arith)
    ]
  ]

  login_answer-Costs :
      (a : AuthHeader) (resp : HttpResponse) → Costs requests 0 (login_answer net a resp)
  unfolding login_answer
  login_answer-Costs a resp =
      >>=-Costs requests 0 0 (returned (read_body net resp.body)) (by_status net a resp.status_code)
        (λ s. omega arith) (by_status-Costs a resp.status_code)

  pub do_request-Costs : (req : HttpRequest) → Costs requests 1 (on_world (net.do_request req))
  do_request-Costs req s = asks req s.world

  exchange-Costs : (a : AuthHeader) (req : HttpRequest) → Costs requests 1 (exchange net a req)
  unfolding exchange
  exchange-Costs a req =
      >>=-Costs requests 1 0 (on_world (net.do_request req)) (login_answer net a)
        (do_request-Costs req) (login_answer-Costs a)

  pub request_to-Costs :
      (method url body : Text) (report : Error → Error)
      → Costs requests 0 (request_to net method url body report)
  unfolding request_to
  request_to-Costs method url body report s = elim (Option-cases (net.request_error method url)) [
    | inl e ↦ rw (e, request_to) (omega arith)
    | inr (x, e) ↦ rw (e, request_to) (omega arith)
  ]

  login_request-Costs : (a : AuthHeader) → Costs requests 1 (login_request net a)
  unfolding login_request login_at
  login_request-Costs a s =
      let t : Session W = record s { client = without_token s.client } in
      >>=-Costs requests 0 1
        (request_to net (codes "POST") (login_address s.client) [] (cannot_create net))
        (exchange net a)
        (request_to-Costs (codes "POST") (login_address s.client) [] (cannot_create net))
        (exchange-Costs a) t

  pub login-Costs : Costs requests 1 (login net)
  login-Costs s = elim (Option-cases s.client.auth) [
    | inl e ↦ rw (login-none net s e) (omega arith)
    | inr (a, e) ↦ elim (login-some net a s e) [
      | inl (fresh, f) ↦ rw f (omega arith)
      | inr f ↦ rw f (login_request-Costs a s)
    ]
  ]

  pub new_token-Costs : Costs requests 1 (new_token net)
  unfolding new_token
  new_token-Costs s = login-Costs (record s { client = record s.client { token = [] } })
