-- ===== src/Rest/Client/Login.antt =====
-- `setAuthHeaders`, `login`, `newToken` and `HasToken` of pkg/rest/client.go.
pub mod Tokens
pub mod Bounds
use brickstor_csi_driver.Base.{
  ℕ, ◌==◌, Bool, true, false, not, ◌&&◌, List, [], ◌∷◌, ◌++◌, Text, codes, Option, none, some, ℤ,
  pos, add64, ltb_int, Outcome, ok, err, panic, Eff, pure, fail, ◌>>=◌, ◌>>◌, Error, plain, Attempt,
  value, failed, attempt, if◌then◌else◌, is_empty, text_eq, error_text,
}
use brickstor_csi_driver.Config.Nodes.{lookup}
use brickstor_csi_driver.Rest.Duration.{marshal}
use brickstor_csi_driver.Rest.Client.{
  AuthType, basic, bearer, ssl, AuthHeader, Client, HttpRequest, HttpResponse, Net, Session,
  user_agent,
}

module _ {W : Type 0} where
  -- A call on the world.
  abbrev pub on_world : {A : Type 0} → Eff W A → Eff (Session W) A
  on_world m s = ((m s.world).0, record s { world = (m s.world).1 })

  abbrev pub put_client : Client → Eff (Session W) (Unit {0})
  put_client c s = (ok tt, record s { client = c })

  abbrev pub get_session : Eff (Session W) (Session W)
  get_session s = (ok s, s)

  abbrev pub returned : {A : Type 0} → Outcome A → Eff (Session W) A
  returned r s = (r, s)

-- A token that is there and does not expire before so many seconds have passed.
unfoldable pub is_fresh : ℤ → Client → Bool
is_fresh deadline c =
    not (is_empty c.token)
    && elim c.claims [ none ↦ false | some expires_at ↦ ltb_int deadline expires_at ]

-- Where to log in.
abbrev pub login_address : Client → Text
login_address c = if is_empty c.login_url then c.base_url ++ codes "/login" else c.login_url

-- The client with its token and claims dropped.
abbrev pub without_token : Client → Client
without_token c = record c { token = []; claims = none }

presented : AuthHeader → List Text → List Text
presented a old = elim a.auth_type [ ssl ↦ a.certificate ∷ [] | _ ↦ old ]

-- The certificates that the client presents from then on.
unfoldable pub with_certificates : Client → Client
unfolding presented
with_certificates c =
    if is_empty c.token
    then elim c.auth [ none ↦ c | some a ↦ record c { certificates = presented a c.certificates } ]
    else c

module _ {W : Type 0} (net : Net W) where
  -- `HasToken`
  unfoldable pub has_token : Session W → Bool
  unfolding is_fresh
  has_token s = is_fresh (net.unix_now s.world) s.client

  credentials : AuthHeader → Text
  credentials a = elim a.auth_type [
    | basic ↦ net.basic_auth a.user a.pass
    | bearer ↦ codes "Bearer " ++ a.token
    | ssl ↦ net.basic_auth a.user []
  ]

  -- The value of the header "Authorization", if it is set.
  unfoldable pub authorization : Client → List (Text × Text)
  unfolding credentials
  authorization c =
      if is_empty c.token
      then elim c.auth [ none ↦ [] | some a ↦ (codes "Authorization", credentials a) ∷ [] ]
      else (codes "Authorization", codes "Bearer " ++ c.token) ∷ []

  -- `setAuthHeaders`
  unfoldable pub set_auth_headers : Client → List (Text × Text)
  unfolding authorization marshal
  set_auth_headers c =
      authorization c
      ++ (codes "Content-Type", codes "application/json")
        ∷ (codes "Cache-Control", codes "no-cache")
        ∷ (codes "User-Agent", user_agent)
        ∷ (codes "X-BsrCli-Version", codes "1.0")
        ∷ (codes "X-Request-Timeout", marshal c.timeout)
        ∷ []

  -- `http.NewRequest` and `setAuthHeaders`
  unfoldable pub request_to : Text → Text → Text → (Error → Error) → Eff (Session W) HttpRequest
  unfolding set_auth_headers with_certificates
  request_to method url body report s = elim (net.request_error method url) [
    | some e ↦ (err (report e), s)
    | none ↦ (
      ok (record { method = method; url = url; headers = set_auth_headers s.client; body = body }),
      record s { client = with_certificates s.client },
    )
  ]

  -- What reading a body comes to.
  abbrev pub read_body : Outcome Text → Outcome Text
  read_body (ok t) = ok t
  read_body (err e) = err (plain (codes "error reading response: " ++ error_text net.grpc e))
  read_body panic = panic

  refused : AuthHeader → Error
  refused a = elim a.auth_type [
    | bearer ↦ plain (codes "invalid or expired token")
    | _ ↦ plain (codes "invalid credentials")
  ]

  -- The token of an answer with status 200.
  answer_token : Text → Outcome Text
  answer_token body = elim (net.decode_map body) [
    | err e ↦ err (plain (codes "invalid response: " ++ error_text net.grpc e))
    | panic ↦ panic
    | ok m ↦ elim (lookup (codes "token") m) [
      | none ↦ err (plain (codes "invalid response: missing token"))
      | some t ↦ if is_empty t then err (plain (codes "invalid response: missing token")) else ok t
    ]
  ]

  -- The claims of a token, read without a check of its signature.
  token_claims : Text → Outcome (Option ℤ)
  token_claims t = elim (net.parse_token t).1 [
    | none ↦ ok (net.parse_token t).0
    | some e ↦
        if text_eq (error_text net.grpc e) net.invalid_key_type
        then ok (net.parse_token t).0
        else err (plain (codes "error parsing token: " ++ error_text net.grpc e))
  ]

  or_old : Option ℤ → Option ℤ → Option ℤ
  or_old none old = old
  or_old (some e) old = some e

  -- The bearer's own token is replaced.
  renewed : AuthHeader → Text → AuthHeader
  renewed a t = elim a.auth_type [ bearer ↦ record a { token = t } | _ ↦ a ]

  -- The end of a login that succeeds.
  unfoldable pub keep_token : AuthHeader → Text → Option ℤ → Eff (Session W) (Unit {0})
  unfolding or_old renewed
  keep_token a t claims = do
    s ← get_session
    put_client (record s.client {
      token = t;
      claims = or_old claims s.client.claims;
      auth = some (renewed a t);
      last_login = net.unix_now s.world;
    })

  keep_claims : AuthHeader → Text → Eff (Session W) (Unit {0})
  unfolding token_claims keep_token
  keep_claims a t = do claims ← returned (token_claims t); keep_token a t claims

  keep_answer : AuthHeader → Text → Eff (Session W) (Unit {0})
  unfolding answer_token keep_claims
  keep_answer a body = do t ← returned (answer_token body); keep_claims a t

  by_status : AuthHeader → ℕ → Text → Eff (Session W) (Unit {0})
  unfolding refused keep_answer
  by_status a code body =
      if code == 401
      then fail (refused a)
      else if code == 200
      then keep_answer a body
      else fail (plain (codes "internal server error"))

  unfoldable pub login_answer : AuthHeader → HttpResponse → Eff (Session W) (Unit {0})
  unfolding by_status
  login_answer a resp = do body ← returned (read_body resp.body); by_status a resp.status_code body

  cannot_create : Error → Error
  cannot_create e = plain (codes "error creating request: " ++ error_text net.grpc e)

  exchange : AuthHeader → HttpRequest → Eff (Session W) (Unit {0})
  unfolding login_answer
  exchange a req = do resp ← on_world (net.do_request req); login_answer a resp

  unfoldable pub login_at : AuthHeader → Text → Eff (Session W) (Unit {0})
  unfolding request_to cannot_create exchange
  login_at a url = do req ← request_to (codes "POST") url [] cannot_create; exchange a req

  -- The login round trip.
  unfoldable pub login_request : AuthHeader → Eff (Session W) (Unit {0})
  unfolding login_at
  login_request a = do
    s ← get_session
    put_client (without_token s.client)
    login_at a (login_address s.client)

  -- A token that lasts another minute is kept.
  login_unless : Bool → AuthHeader → Eff (Session W) (Unit {0})
  unfolding login_request
  login_unless fresh a = if fresh then pure tt else login_request a

  login_with : Option AuthHeader → Eff (Session W) (Unit {0})
  unfolding is_fresh login_unless
  login_with none = pure tt
  login_with (some a) = do
    s ← get_session
    login_unless (is_fresh (add64 (net.unix_now s.world) (pos 60)) s.client) a

  -- `login`
  unfoldable pub login : Eff (Session W) (Unit {0})
  unfolding login_with
  login = do s ← get_session; login_with s.client.auth

  -- `newToken`
  unfoldable pub new_token : Eff (Session W) (Unit {0})
  unfolding login
  new_token = do s ← get_session; put_client (record s.client { token = [] }); login
