-- ===== src/Server/Guards.antt =====
-- internal/server/guards.go: the middleware around a handler, from the outside in: recovery,
-- shutdown, request id, authentication, rate limit, body limit. The token bucket of an address, the
-- decoding of base64, the splitting of host and port and the check of session tokens are parameters. The
-- server puts its other middleware between the guards and its router: CORS, validation, sessions, which
-- may put another user in the place of the authenticated one, authorisation and logs.
pub mod Safety
mod Tests
use go_es.Prelude.{
  ℕ, ◌*◌, Bool, true, false, not, ◌&&◌, ◌||◌, Option, none, some, List, [], ◌∷◌, if◌then◌else◌,
  ◌==◌, nat_eq, Text, text_Comparable, text, drop,
}
use go_es.Prelude.Int.{ℤ, pos, negsuc, ltb_ℤ, positive, eq_ℤ}
use go_es.Prelude.Maps.{Map, lookup, insert}
use go_es.Prelude.Sets.{contains}
use go_es.Prelude.Strings.{has_prefix, cut, split, trim, is_space}

pub record AuthConfig : Type 0 where
  pub enabled : Bool
  pub basic : Map Text Text
  pub api_keys : List Text

-- The rate is the whole number of requests in a second.
pub record LimitConfig : Type 0 where
  pub max_body_bytes : ℤ
  pub rate_per_second : ℤ
  pub burst : ℤ

-- What the guards take from elsewhere. `allow_bucket` asks a token bucket for one token.
pub record Outside (Bucket : Type 0) : Type 0 where
  pub new_bucket : ℤ → ℤ → Bucket
  pub allow_bucket : Bucket → Bool × Bucket
  pub base64_decode : Text → Option Text
  pub split_host : Text → Option Text
  pub token_validator : Option (Text → Option Text)

pub record Limiter (Bucket : Type 0) : Type 0 where
  pub limit : ℤ
  pub burst : ℤ
  pub buckets : Map Text Bucket

pub record Guards (Bucket : Type 0) : Type 0 where
  pub auth : AuthConfig
  pub limit : LimitConfig
  pub limiter : Option (Limiter Bucket)
  pub shutting_down : Bool

pub record Request : Type 0 where
  pub path : Text
  pub authorization : Text
  pub forwarded_for : Text
  pub remote_addr : Text
  pub has_body : Bool
  pub content_length : ℤ

abbrev pub default_body_bytes : ℕ
default_body_bytes = 100 * 1_048_576

-- The limits once the defaults are in.
unfoldable pub apply_defaults : LimitConfig → LimitConfig
apply_defaults c = record {
  max_body_bytes =
      if eq_ℤ c.max_body_bytes (pos 0) then pos default_body_bytes else c.max_body_bytes;
  rate_per_second = c.rate_per_second;
  burst = if positive c.rate_per_second && eq_ℤ c.burst (pos 0) then c.rate_per_second else c.burst;
}

module _ {Bucket : Type 0} where
  -- `newGuards`
  unfoldable pub new_guards : AuthConfig → LimitConfig → Guards Bucket
  unfolding apply_defaults
  new_guards auth raw =
      let limit = apply_defaults raw in
      record {
        auth = auth;
        limit = limit;
        limiter =
            if positive limit.rate_per_second
            then some (record { limit = limit.rate_per_second; burst = limit.burst; buckets = [] })
            else none;
        shutting_down = false;
      }

abbrev pub health_paths : List Text
health_paths =
    text "/" ∷ text "/_health/liveness" ∷ text "/_health/readiness" ∷ text "/_health/startup" ∷ []

abbrev pub public_paths : List Text
public_paths =
    text "/metrics"
    ∷ text "/_ui"
    ∷ text "/_ui/index.html"
    ∷ text "/_ui/admin.html"
    ∷ text "/_security/login"
    ∷ text "/_security/logout"
    ∷ text "/_security/logout_all"
    ∷ text "/_cluster/health"
    ∷ []

unfoldable pub is_health_path : Text → Bool
unfolding contains
is_health_path p = contains p health_paths

unfoldable pub is_public_path : Text → Bool
unfolding is_health_path contains
is_public_path p = is_health_path p || contains p public_paths

-- The response: its status, or the panic of a handler.
pub data Reply : Type 0 where
  status : ℕ → Reply
  panics : Reply

-- What a request comes to: the guards after it, the user with which it reached the handler that
-- the guards wrap, if it did, and the response.
pub record Served (Bucket : Type 0) : Type 0 where
  pub guards : Guards Bucket
  pub reached : Option (Option Text)
  pub reply : Reply

-- An `http.Handler`: it takes the request, the user in its context and the guards.
abbrev pub Handler : Type 0 → Type 0
Handler Bucket = Request → Option Text → Guards Bucket → Served Bucket

module _ {Bucket : Type 0} (out : Outside Bucket) where
  -- `clientIP`
  unfoldable pub client_ip : Request → Text
  unfolding cut trim
  client_ip r =
      if not (r.forwarded_for == [])
      then (elim (cut 44 r.forwarded_for) [
        | some (first, _) ↦ trim is_space first
        | none ↦ trim is_space r.forwarded_for
      ])
      else elim (out.split_host r.remote_addr) [ some host ↦ host | none ↦ r.remote_addr ]

  -- The part of `authenticate` after `Basic `.
  unfoldable pub basic_auth : AuthConfig → Text → Option Text
  unfolding cut lookup
  basic_auth auth encoded = elim (out.base64_decode encoded) [
    | none ↦ none
    | some raw ↦ elim (cut 58 raw) [
      | none ↦ none
      | some (user, pass) ↦ elim (lookup user auth.basic) [
        | none ↦ none
        | some expected ↦ if pass == expected then some user else none
      ]
    ]
  ]

  -- The user, if the header proves one.
  unfoldable pub authenticate : AuthConfig → Request → Option Text
  unfolding has_prefix contains basic_auth
  authenticate auth r =
      if r.authorization == []
      then none
      else if has_prefix r.authorization (text "Bearer ")
      then (elim out.token_validator [
        | none ↦ none
        | some validate ↦ validate (drop 7 r.authorization)
      ])
      else if has_prefix r.authorization (text "ApiKey ")
      then (if contains (drop 7 r.authorization) auth.api_keys then some (text "apikey") else none)
      else if has_prefix r.authorization (text "Basic ")
      then basic_auth auth (drop 6 r.authorization)
      else none

  -- `(*ipLimiter).allow`
  unfoldable pub allow : Text → Limiter Bucket → Limiter Bucket × Bool
  unfolding lookup insert
  allow ip l =
      let bucket : Bucket = elim (lookup ip l.buckets) [
        | some b ↦ b
        | none ↦ out.new_bucket l.limit l.burst
      ] in
      let (allowed, after) = out.allow_bucket bucket in
      (record l { buckets = insert ip after l.buckets }, allowed)

  abbrev refuse : ℕ → Guards Bucket → Served Bucket
  refuse code g = record { guards = g; reached = none; reply = status code }

  -- The handler that the guards wrap.
  unfoldable pub wrapped : (Request → Option Text → Reply) → Handler Bucket
  wrapped route r user g = record { guards = g; reached = some user; reply = route r user }

  unfoldable pub middleware_body_limit : ℤ → Handler Bucket → Handler Bucket
  middleware_body_limit limit h r user g =
      if r.has_body && ltb_ℤ limit r.content_length then refuse 413 g else h r user g

  unfoldable pub middleware_rate_limit : Handler Bucket → Handler Bucket
  unfolding allow client_ip
  middleware_rate_limit h r user g = elim g.limiter [
    | none ↦ h r user g
    | some l ↦
        let (l', allowed) = allow (client_ip r) l in
        let g' : Guards Bucket = record g { limiter = some l' } in
        if allowed then h r user g' else refuse 429 g'
  ]

  unfoldable pub middleware_auth : Handler Bucket → Handler Bucket
  unfolding authenticate is_public_path
  middleware_auth h r user g =
      if is_public_path r.path
      then h r user g
      else elim (authenticate g.auth r) [ none ↦ refuse 401 g | some name ↦ h r (some name) g ]

  unfoldable pub middleware_shutdown : Handler Bucket → Handler Bucket
  unfolding is_health_path
  middleware_shutdown h r user g =
      if g.shutting_down && not (is_health_path r.path) then refuse 503 g else h r user g

  recovered : Served Bucket → Served Bucket
  recovered s = elim s.reply [ panics ↦ record s { reply = status 500 } | status _ ↦ s ]

  unfoldable pub middleware_recover : Handler Bucket → Handler Bucket
  unfolding recovered
  middleware_recover h r user g = recovered (h r user g)

  -- `chainMiddleware`, for the guards `c`; request ids, metrics and traces change no decision.
  unfoldable pub chain_middleware : Guards Bucket → Handler Bucket → Handler Bucket
  unfolding middleware_body_limit middleware_rate_limit middleware_auth middleware_shutdown
      middleware_recover
  chain_middleware c h =
      let body : Handler Bucket =
        if positive c.limit.max_body_bytes
        then middleware_body_limit c.limit.max_body_bytes h
        else h in
      let rate : Handler Bucket = elim c.limiter [
        | none ↦ body
        | some _ ↦ middleware_rate_limit body
      ] in
      let auth : Handler Bucket = if c.auth.enabled then middleware_auth rate else rate in
      middleware_recover (middleware_shutdown auth)

  -- A request to the guards `g` around a handler.
  unfoldable pub serve : (Request → Option Text → Reply) → Request → Guards Bucket → Served Bucket
  unfolding chain_middleware wrapped
  serve route r g = chain_middleware g (wrapped route) r none g

-- `handleReadiness`, for a server that has its store or not, and `handleStartup`.
unfoldable pub handle_readiness : Bool → Bool → ℕ
handle_readiness has_store shutting_down =
    if not has_store then 503 else if shutting_down then 503 else 200

unfoldable pub handle_startup : Bool → ℕ
handle_startup startup_done = if not startup_done then 503 else 200
