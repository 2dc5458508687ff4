-- ===== src/Rest/Client/Login/Tokens.antt =====
-- The token and its claims after a login.
use brickstor_csi_driver.Base.{
  ◌≡◌, ◌≢◌, refl, ap, sym, ◌∙◌, codes, ◌==◌, ℕ, inl, inr, ◌⊎◌, true, Bool-cases, Text, [], none,
  some, ok, Outcome, Error, Eff, Outcome-cases, ◌>>=◌, >>=-ok, >>=-err, >>=-panic, is_empty, arith,
  ℤ, pos, add64, Option-cases,
}
use brickstor_csi_driver.Rest.Client.{AuthHeader, Client, Net, Session, HttpRequest}
use brickstor_csi_driver.Rest.Client.Login.{
  login, login_with, login_unless, login_request, login_answer, exchange, by_status, keep_answer,
  keep_claims, login_at, login_address, keep_token, request_to, with_certificates, without_token,
  on_world, returned, read_body, answer_token, token_claims, is_fresh, cannot_create,
}

-- No token, for a client that can log in.
abbrev pub IsLoggedOut : Client → Type 0
IsLoggedOut c = (c.token ≡ []) × (c.claims ≡ none) × (c.auth ≢ none)

-- A token, for a client that can log in.
abbrev pub IsLoggedIn : Client → Type 0
IsLoggedIn c = (c.token ≢ []) × (c.auth ≢ none)

-- Success comes with a token, and anything else with none.
abbrev pub IsSettled : {W : Type 0} → Outcome (Unit {0}) × Session W → Type 0
IsSettled r = ((r.0 ≡ ok tt) × IsLoggedIn r.1.client) ⊎ ((r.0 ≢ ok tt) × IsLoggedOut r.1.client)

pub with_certificates-same :
    (c : Client)
    → ((with_certificates c).token ≡ c.token)
      × ((with_certificates c).claims ≡ c.claims)
      × ((with_certificates c).auth ≡ c.auth)
unfolding with_certificates
with_certificates-same c = elim (Bool-cases (is_empty c.token)) [
  | inr e ↦ rw e (refl, refl, refl)
  | inl e ↦ elim (Option-cases c.auth) [
    | inl f ↦ rw (e, f) (refl, refl, f)
    | inr (a, f) ↦ rw (e, f) (refl, refl, f)
  ]
]

module _ {W : Type 0} (net : Net W) where
  >>=-IsSettled :
      {A : Type 0} (m : Eff (Session W) A) (k : A → Eff (Session W) (Unit {0})) (s : Session W)
      → IsLoggedOut (m s).1.client
      → ((a : A) → (m s).0 ≡ ok a → IsSettled (k a (m s).1))
      → IsSettled ((m >>= k) s)
  >>=-IsSettled m k s out next = elim (Outcome-cases (m s).0) [
    | inl (a, e) ↦ rw (>>=-ok m k s e) (next a e)
    | inr (inl (x, e)) ↦ rw (>>=-err m k s e) (inr (λ q. cc q, out))
    | inr (inr e) ↦ rw (>>=-panic m k s e) (inr (λ q. cc q, out))
  ]

  answer_token-ne-nil : (body t : Text) → answer_token net body ≡ ok t → t ≢ []
  unfolding answer_token
  answer_token-ne-nil body t h = ground arith

  keep_claims-IsSettled :
      (a : AuthHeader) (t : Text) (s : Session W)
      → t ≢ []
      → IsLoggedOut s.client
      → IsSettled (keep_claims net a t s)
  unfolding keep_claims keep_token
  keep_claims-IsSettled a t s there out =
      >>=-IsSettled (returned (token_claims net t)) (keep_token net a t) s out
        (λ c e. inl (refl, (there, λ q. cc q)))

  keep_answer-IsSettled :
      (a : AuthHeader) (body : Text) (s : Session W)
      → IsLoggedOut s.client
      → IsSettled (keep_answer net a body s)
  unfolding keep_answer
  keep_answer-IsSettled a body s out =
      >>=-IsSettled (returned (answer_token net body)) (keep_claims net a) s out
        (λ t e. keep_claims-IsSettled a t s (answer_token-ne-nil body t e) out)

  by_status-IsSettled :
      (a : AuthHeader) (code : ℕ) (body : Text) (s : Session W)
      → IsLoggedOut s.client
      → IsSettled (by_status net a code body s)
  unfolding by_status
  by_status-IsSettled a code body s out = elim (Bool-cases (code == 401)) [
    | inl e ↦ rw (e, by_status) (inr (λ q. cc q, out))
    | inr e ↦ elim (Bool-cases (code == 200)) [
      | inl f ↦ rw (e, f, by_status) (keep_answer-IsSettled a body s out)
      | inr f ↦ rw (e, f, by_status) (inr (λ q. cc q, out))
    ]
  ]

  exchange-IsSettled :
      (a : AuthHeader) (req : HttpRequest) (s : Session W)
      → IsLoggedOut s.client
      → IsSettled (exchange net a req s)
  unfolding exchange login_answer
  exchange-IsSettled a req s out =
      >>=-IsSettled (on_world (net.do_request req)) (login_answer net a) s out (λ resp e.
        let t = (on_world (net.do_request req) s).1 in
        >>=-IsSettled (returned (read_body net resp.body)) (by_status net a resp.status_code) t out
          (λ body f. by_status-IsSettled a resp.status_code body t out))

  request_to-LoggedOut :
      (method url body : Text) (report : Error → Error) (s : Session W)
      → IsLoggedOut s.client
      → IsLoggedOut (request_to net method url body report s).1.client
  unfolding request_to
  request_to-LoggedOut method url body report s (no_token, no_claims, can) =
      elim (Option-cases (net.request_error method url)) [
        | inr (x, e) ↦ rw (e, request_to) (no_token, no_claims, can)
        | inl e ↦
            let (t, c, a) = with_certificates-same s.client in
            rw (e, request_to) (t ∙ no_token, c ∙ no_claims, λ q. can (sym a ∙ q))
      ]

  login_request-IsSettled :
      (a : AuthHeader) (s : Session W) → s.client.auth ≡ some a → IsSettled (login_request net a s)
  unfolding login_request login_at
  login_request-IsSettled a s can =
      let t : Session W = record s { client = without_token s.client } in
      let out : IsLoggedOut t.client = (refl, refl, λ q. cc (q, can)) in
      let url = login_address s.client in
      >>=-IsSettled (request_to net (codes "POST") url [] (cannot_create net)) (exchange net a) t
        (request_to-LoggedOut (codes "POST") url [] (cannot_create net) t out)
        (λ req e.
          exchange-IsSettled a req _
            (request_to-LoggedOut (codes "POST") url [] (cannot_create net) t out))

  is_fresh-token : (deadline : ℤ) (c : Client) → is_fresh deadline c ≡ true → c.token ≢ []
  unfolding is_fresh
  is_fresh-token deadline c h none_there = let bad = rw none_there at h in cc bad

  pub login-none : (s : Session W) → s.client.auth ≡ none → login net s ≡ (ok tt, s)
  unfolding login login_with
  login-none s e = ap (λ o. login_with net o s) e

  pub login-some :
      (a : AuthHeader) (s : Session W)
      → s.client.auth ≡ some a
      → (is_fresh (add64 (net.unix_now s.world) (pos 60)) s.client ≡ true)
          × (login net s ≡ (ok tt, s))
        ⊎ (login net s ≡ login_request net a s)
  unfolding login login_with login_unless
  login-some a s e = elim (Bool-cases (is_fresh (add64 (net.unix_now s.world) (pos 60)) s.client)) [
    | inl f ↦ inl (f, ap (λ o. login_with net o s) e ∙ ap (λ b. login_unless net b a s) f)
    | inr f ↦ inr (ap (λ o. login_with net o s) e ∙ ap (λ b. login_unless net b a s) f)
  ]

  -- `login` of a client with credentials succeeds with a token, or it fails, or panics, and leaves
  -- neither a token nor claims; the token is not checked against a clock or a signature.
  pub login-IsSettled :
      (a : AuthHeader) (s : Session W) → s.client.auth ≡ some a → IsSettled (login net s)
  login-IsSettled a s can = elim (login-some a s can) [
    | inl (fresh, e) ↦ rw e (
        inl (
          refl,
          (is_fresh-token (add64 (net.unix_now s.world) (pos 60)) s.client fresh, λ q. cc (q, can)),
        ))
    | inr e ↦ rw e (login_request-IsSettled a s can)
  ]
