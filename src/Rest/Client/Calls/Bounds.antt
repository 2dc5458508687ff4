-- ===== src/Rest/Client/Calls/Bounds.antt =====
-- How many requests a call makes.
use brickstor_csi_driver.Base.{
  true, false, Bool, ℕ, ◌+◌, ◌≤◌, arith, Text, codes, Option, ok, err, panic, Outcome, attempt,
  ◌==◌, Attempt, value, failed, trim_prefix, ◌++◌, Costs, >>=-Costs, attempt-Costs,
}
use brickstor_csi_driver.Rest.Client.{Net, Session, HttpResponse}
use brickstor_csi_driver.Rest.Client.Login.{login, new_token, on_world, returned}
use brickstor_csi_driver.Rest.Client.Login.Bounds.{
  IsRequestCounter, requests, login-Costs, new_token-Costs, request_to-Costs, do_request-Costs,
}
use brickstor_csi_driver.Rest.Client.Calls.{
  Call, create_request, request_for, send_body, send, get, post, post_again, after_attempt,
  retry_if, after_answer, decode_response, answered, encoding,
}

module _ {W : Type 0} (net : Net W) (count : W → ℕ) (asks : IsRequestCounter net count) where
  abbrev tally : Session W → ℕ
  tally = requests net count asks

  create_request-Costs :
      (method path body : Text) → Costs tally 1 (create_request net method path body)
  unfolding create_request request_for
  create_request-Costs method path body =
      >>=-Costs tally 1 0 (login net) (λ u. request_for net method path body)
        (login-Costs net count asks)
        (λ u s.
          request_to-Costs net count asks method
            (s.client.base_url ++ trim_prefix path s.client.base_url) body (λ e. e) s)

  send_body-Costs : (method path body : Text) → Costs tally 2 (send_body net method path body)
  unfolding send_body
  send_body-Costs method path body =
      >>=-Costs tally 1 1 (create_request net method path body)
        (λ req. on_world (net.do_request req)) (create_request-Costs method path body)
        (do_request-Costs net count asks)

  module _ {R : Type 0} where
    send-Costs : (method : Text) (call : Call R) → Costs tally 2 (send net method call)
    unfolding send
    send-Costs method call =
        >>=-Costs tally 0 2 (returned (encoding net call.encoded)) (send_body net method call.path)
          (λ s. omega arith) (send_body-Costs method call.path)

    answered-Costs : (call : Call R) (resp : HttpResponse) → Costs tally 0 (answered net call resp)
    unfolding answered
    answered-Costs call resp s = omega arith

    get-Costs : (call : Call R) → Costs tally 2 (get net call)
    unfolding get
    get-Costs call =
        >>=-Costs tally 2 0 (send net (codes "GET") call) (answered net call)
          (send-Costs (codes "GET") call) (answered-Costs call)

    after_attempt-Costs :
        (call : Call R) (r : Attempt (Unit {0})) → Costs tally 2 (after_attempt net call r)
    unfolding after_attempt
    after_attempt-Costs call (failed e) s = omega arith
    after_attempt-Costs call (value u) s =
        >>=-Costs tally 2 0 (send net (codes "POST") call) (answered net call)
          (send-Costs (codes "POST") call) (answered-Costs call) s

    post_again-Costs : (call : Call R) → Costs tally 3 (post_again net call)
    unfolding post_again
    post_again-Costs call =
        >>=-Costs tally 1 2 (attempt (new_token net)) (after_attempt net call)
          (attempt-Costs tally 1 (new_token net) (new_token-Costs net count asks))
          (after_attempt-Costs call)

    retry_if-Costs :
        (denied : Bool) (call : Call R) (o : Outcome (Option R))
        → Costs tally 3 (retry_if net denied call o)
    unfolding retry_if
    retry_if-Costs denied call (ok r) s = omega arith
    retry_if-Costs true call (err e) s = post_again-Costs call s
    retry_if-Costs false call (err e) s = omega arith
    retry_if-Costs denied call panic s = omega arith

    -- Whatever the server answers, `Get` makes at most two requests and `Post` at most five, logins
    -- included, by any counter that a request raises by one at most.
    pub post-Costs :
        (call : Call R) (s : Session W)
        → (count (get net call s).1.world ≤ count s.world + 2)
          × (count (post net call s).1.world ≤ count s.world + 5)
    unfolding post after_answer
    post-Costs call s = (
      get-Costs call s,
      >>=-Costs tally 2 3 (send net (codes "POST") call) (after_answer net call)
          (send-Costs (codes "POST") call)
          (λ resp. retry_if-Costs (resp.status_code == 401) call (decode_response net call resp)) s,
    )
