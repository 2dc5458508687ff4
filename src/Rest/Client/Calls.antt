-- ===== src/Rest/Client/Calls.antt =====
-- `createRequest`, `postJson`, `decodeResponse`, `Post` and `Get` of pkg/rest/client.go.
pub mod Reachable
pub mod Bounds
use brickstor_csi_driver.Base.{
  ◌==◌, Bool, List, [], ◌∷◌, ◌++◌, Text, codes, Option, none, some, Outcome, ok, err, panic, Eff,
  pure, fail, ◌>>=◌, ◌>>◌, Error, plain, response, Attempt, value, failed, attempt, if◌then◌else◌,
  error_text, trim_prefix,
}
use brickstor_csi_driver.Rest.Client.{HttpRequest, HttpResponse, Net, Session}
use brickstor_csi_driver.Rest.Client.Login.{
  on_world, get_session, returned, read_body, request_to, login, new_token,
}

-- A call: its path, what the JSON encoding of its request comes to, and how its answer is read, where
-- an answer is wanted.
pub record Call (R : Type 0) : Type 0 where
  pub path : Text
  pub encoded : Outcome Text
  pub decode : Option (Text → Outcome R)

module _ {W : Type 0} (net : Net W) where
  -- The request behind the login: the base URL in front of the path is not doubled.
  request_for : Text → Text → Text → Eff (Session W) HttpRequest
  unfolding request_to trim_prefix
  request_for method path body = do
    s ← get_session
    request_to net method (s.client.base_url ++ trim_prefix path s.client.base_url) body (λ e. e)

  -- `createRequest`
  unfoldable pub create_request : Text → Text → Text → Eff (Session W) HttpRequest
  unfolding login request_for
  create_request method path body = do login net; request_for method path body

  abbrev encoding : Outcome Text → Outcome Text
  encoding (ok t) = ok t
  encoding (err e) = err (plain (codes "error encoding request: " ++ error_text net.grpc e))
  encoding panic = panic

  send_body : Text → Text → Text → Eff (Session W) HttpResponse
  unfolding create_request
  send_body method path body = do
    req ← create_request method path body
    on_world (net.do_request req)

  -- `postJson`, and `Get` up to the answer
  unfoldable pub send : {R : Type 0} → Text → Call R → Eff (Session W) HttpResponse
  unfolding send_body
  send method call = do body ← returned (encoding call.encoded); send_body method call.path body

module _ {W R : Type 0} (net : Net W) where
  error_response : Text → Outcome (Option R)
  error_response body = elim (net.decode_error_response body) [
    | ok t ↦ err (response t)
    | err e ↦ err (plain (codes "error decoding error response: " ++ error_text net.grpc e))
    | panic ↦ panic
  ]

  wanted : Option (Text → Outcome R) → Text → Outcome (Option R)
  wanted none body = ok none
  wanted (some decode) body = elim (decode body) [
    | ok r ↦ ok (some r)
    | err e ↦ err (plain (codes "error decoding response: " ++ error_text net.grpc e))
    | panic ↦ panic
  ]

  decoded : Call R → HttpResponse → Outcome Text → Outcome (Option R)
  unfolding error_response wanted
  decoded call resp (ok body) =
      if resp.status_code == 200 then wanted call.decode body else error_response body
  decoded call resp (err e) = err e
  decoded call resp panic = panic

  -- `decodeResponse` of an answer
  unfoldable pub decode_response : Call R → HttpResponse → Outcome (Option R)
  unfolding decoded
  decode_response call resp = decoded call resp (read_body net resp.body)

  answered : Call R → HttpResponse → Eff (Session W) (Option R)
  unfolding decode_response
  answered call resp = returned (decode_response call resp)

  -- `Get`
  unfoldable pub get : Call R → Eff (Session W) (Option R)
  unfolding send answered
  get call = do resp ← send net (codes "GET") call; answered call resp

  after_attempt : Call R → Attempt (Unit {0}) → Eff (Session W) (Option R)
  unfolding send answered
  after_attempt call (failed e) =
      fail (plain (codes "error generating new auth token: " ++ error_text net.grpc e))
  after_attempt call (value u) = do resp ← send net (codes "POST") call; answered call resp

  -- The second half of `Post`: a new token, and the same call again.
  unfoldable pub post_again : Call R → Eff (Session W) (Option R)
  unfolding after_attempt new_token
  post_again call = do r ← attempt (new_token net); after_attempt call r

  retry_if : Bool → Call R → Outcome (Option R) → Eff (Session W) (Option R)
  unfolding post_again
  retry_if denied call (ok r) = pure r
  retry_if denied call (err e) = if denied then post_again call else fail e
  retry_if denied call panic = returned panic

  -- What `Post` makes of its first answer.
  unfoldable pub after_answer : Call R → HttpResponse → Eff (Session W) (Option R)
  unfolding decode_response retry_if
  after_answer call resp = retry_if (resp.status_code == 401) call (decode_response call resp)

  -- `Post`
  unfoldable pub post : Call R → Eff (Session W) (Option R)
  unfolding send after_answer
  post call = do resp ← send net (codes "POST") call; after_answer call resp
