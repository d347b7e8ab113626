-- ===== src/Server/Guards/Tests.antt =====
-- internal/server/guards.go: runs of concrete requests.
use go_es.Prelude.{
  ◌≡◌, refl, ℕ, true, false, Option, none, some, [], ◌∷◌, text_eq, Text, text, if◌then◌else◌,
}
use go_es.Prelude.Int.{pos}
use go_es.Prelude.Maps.{lookup}
use go_es.Server.Guards.{
  Outside, Guards, Request, Reply, status, serve, authenticate, is_public_path, is_health_path,
}
use go_es.Server.Guards.Safety.{serve-guarded, serve-unauthenticated}

abbrev outside : Outside ℕ
outside = record {
  new_bucket = λ _ _. 1;
  allow_bucket = λ b. (true, b);
  base64_decode = λ s. some s;
  split_host = λ s. some s;
  token_validator = none;
}

abbrev guards : Guards ℕ
guards = record {
  auth = record { enabled = true; basic = (text "ann", text "pw") ∷ []; api_keys = [] };
  limit = record { max_body_bytes = pos 100; rate_per_second = pos 5; burst = pos 5 };
  limiter = none;
  shutting_down = false;
}

abbrev request : Text → Request
request authorization = record {
  path = text "/books/_search";
  authorization = authorization;
  forwarded_for = [];
  remote_addr = text "10.0.0.1";
  has_body = false;
  content_length = pos 0;
}

abbrev route : Request → Option Text → Reply
route _ _ = status 200

serve-guarded_example :
    (guards.auth.enabled ≡ true
      → is_public_path (request (text "Basic ann:pw")).path ≡ false
      → (name : Text) × (authenticate outside guards.auth (request (text "Basic ann:pw"))
          ≡ some name)
        × (some (text "ann") ≡ some name))
    × (guards.shutting_down ≡ true → is_health_path (request (text "Basic ann:pw")).path ≡ true)
unfolding serve text_eq lookup
serve-guarded_example =
    serve-guarded outside route (request (text "Basic ann:pw")) guards (some (text "ann")) refl

serve-unauthenticated_example :
    serve outside route (request (text "Basic ann:no")) guards ≡ record {
      guards = guards;
      reached = none;
      reply = status (if guards.shutting_down then 503 else 401);
    }
unfolding serve text_eq lookup
serve-unauthenticated_example =
    serve-unauthenticated outside route (request (text "Basic ann:no")) guards refl refl refl
