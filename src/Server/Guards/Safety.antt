-- ===== src/Server/Guards/Safety.antt =====
-- internal/server/guards.go: which requests reach the handler that the guards wrap.
use go_es.Prelude.{
  ◌≡◌, true, false, Option, none, some, if◌then◌else◌, Text, text_Comparable, Option-cases, inl,
  inr, arith,
}
use go_es.Server.Guards.{
  Outside, Guards, Request, Reply, status, serve, authenticate, is_public_path, is_health_path,
}

module _ {Bucket : Type 0} (out : Outside Bucket) (route : Request → Option Text → Reply) where
  -- With authentication on, the guards pass a request to a path that is not public on to the handler that
  -- they wrap only as the user that its header proves; a middleware behind them may still put another
  -- user in its place. While the server shuts down, with or without authentication, they pass on only
  -- requests to the health paths.
  pub serve-guarded :
      (r : Request) (g : Guards Bucket) (user : Option Text)
      → (serve out route r g).reached ≡ some user
      → (g.auth.enabled ≡ true
          → is_public_path r.path ≡ false
          → (name : Text) × (authenticate out g.auth r ≡ some name) × (user ≡ some name))
        × (g.shutting_down ≡ true → is_health_path r.path ≡ true)
  unfolding serve
  serve-guarded r g user h = (
    λ e p. elim (Option-cases (authenticate out g.auth r)) [
      | inl n ↦ absurd (refused e p n)
      | inr (name, n) ↦ (name, n, as_user e p name n)
    ],
    λ s. ground (arith, s, h),
  )
    where
      refused :
          g.auth.enabled ≡ true
          → is_public_path r.path ≡ false
          → authenticate out g.auth r ≡ none
          → ⊥
      refused e p n = ground (arith, e, p, n, h)

      as_user :
          g.auth.enabled ≡ true
          → is_public_path r.path ≡ false
          → (name : Text) → authenticate out g.auth r ≡ some name
          → user ≡ some name
      as_user e p name n = ground (arith, e, p, n, h)

  -- The rate limit stands behind the authentication: with authentication on, a request to a path
  -- that is not public and whose header proves no user is answered with 401, or with 503 while the
  -- server shuts down, and takes no token from the bucket of its address. So the limit does not slow
  -- down the guessing of passwords by this header.
  pub serve-unauthenticated :
      (r : Request) (g : Guards Bucket)
      → g.auth.enabled ≡ true
      → is_public_path r.path ≡ false
      → authenticate out g.auth r ≡ none
      → serve out route r g ≡ record {
        guards = g;
        reached = none;
        reply = status (if g.shutting_down then 503 else 401);
      }
  unfolding serve
  serve-unauthenticated r g e p n = ground (arith, e, p, n)
