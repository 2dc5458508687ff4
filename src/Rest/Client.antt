-- ===== src/Rest/Client.antt =====
-- pkg/rest/client.go and auth.go: the login, the token and the calls of `BsrClient`. What the client
-- takes of net/http, encoding/json, golang-jwt and package time is the record `Net`. The mutex is
-- left out: a call runs alone. A `last_login` of 0 is the zero time.
pub mod Login
pub mod Calls
use brickstor_csi_driver.Base.{
  ℕ, Bool, true, false, not, ◌&&◌, List, [], ◌∷◌, ◌++◌, Text, codes, Option, none, some, ℤ, pos,
  negsuc, ◌*◌, ◌^◌, add64, ltb_int, Outcome, ok, err, panic, Eff, pure, fail, ◌>>=◌, ◌>>◌, Error,
  plain, response, Attempt, value, failed, attempt, if◌then◌else◌, is_empty, text_eq, Grpc,
  error_text, trim_prefix, ◌==◌,
}
use brickstor_csi_driver.Config.Nodes.{lookup}
use brickstor_csi_driver.Rest.Duration.{marshal}

-- `AuthType`
pub data AuthType : Type 0 where
  basic bearer ssl : AuthType

-- `AuthHeader`; a certificate is kept as a text.
pub record AuthHeader : Type 0 where
  pub auth_type : AuthType
  pub user : Text
  pub pass : Text
  pub token : Text
  pub certificate : Text

-- `NewBasicAuth`, `NewJWTAuth` and `NewSslAuth`
abbrev pub new_basic_auth : Text → Text → AuthHeader
new_basic_auth user pass = record {
  auth_type = basic;
  user = user;
  pass = pass;
  token = [];
  certificate = [];
}

abbrev pub new_jwt_auth : Text → AuthHeader
new_jwt_auth token = record {
  auth_type = bearer;
  user = [];
  pass = [];
  token = token;
  certificate = [];
}

abbrev pub new_ssl_auth : Text → Text → AuthHeader
new_ssl_auth user certificate = record {
  auth_type = ssl;
  user = user;
  pass = [];
  token = [];
  certificate = certificate;
}

-- `BsrClient`: the claims are the expiry, in Unix seconds.
pub record Client : Type 0 where
  pub base_url : Text
  pub login_url : Text
  pub host_and_port : Text
  pub timeout : ℤ
  pub auth : Option AuthHeader
  pub token : Text
  pub claims : Option ℤ
  pub last_login : ℤ
  pub certificates : List Text

pub record HttpRequest : Type 0 where
  pub method : Text
  pub url : Text
  pub headers : List (Text × Text)
  pub body : Text

-- The status code, and what the body is read as.
pub record HttpResponse : Type 0 where
  pub status_code : ℕ
  pub body : Outcome Text

-- `http.NewRequest` may refuse a method and URL. `jwt.ParseWithClaims` returns the claims' expiry, if
-- it returns a token, and an error, if any.
pub record Net (W : Type 0) : Type 0 where
  pub grpc : Grpc
  pub unix_now : W → ℤ
  pub request_error : Text → Text → Option Error
  pub do_request : HttpRequest → Eff W HttpResponse
  pub basic_auth : Text → Text → Text
  pub decode_map : Text → Outcome (List (Text × Text))
  pub decode_error_response : Text → Outcome Text
  pub parse_token : Text → Option ℤ × Option Error
  pub invalid_key_type : Text

pub record Session (W : Type 0) : Type 0 where
  pub client : Client
  pub world : W

-- `UserAgent`, with AGENT and VERSION
abbrev pub user_agent : Text
user_agent = codes "BsrCSI" ++ (codes "/" ++ codes "1.0")

-- The defaults of `NewBsrClient`: the HTTP timeout is `IdleConnTimeout`, 90 seconds if it is 0.
unfoldable pub new_client : Text → ℤ → Option AuthHeader → Client
new_client base_url idle auth = record {
  base_url = base_url;
  login_url = [];
  host_and_port = trim_prefix base_url (codes "https://");
  timeout = elim idle [ pos n ↦ if n == 0 then pos (90 * 10 ^ 9) else pos n | negsuc n ↦ negsuc n ];
  auth = auth;
  token = [];
  claims = none;
  last_login = pos 0;
  certificates = [];
}
