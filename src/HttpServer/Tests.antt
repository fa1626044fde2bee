-- ===== src/HttpServer/Tests.antt =====
-- The router on single requests, and the theorems at concrete requests.
use go_examples.Base.{false, ◌≡◌, refl, [], ◌∷◌, none, some}
use go_examples.HttpServer.{
  Request, logged, recovered, plain, envelope, status_ok, logging, recoverer, chain, untouched, mux,
  routes, redirect, moved_to, new_router, handle_health, handle_panic, write_json, write_header,
  http_error, Handler, wrap_all,
}
use go_examples.HttpServer.Middleware.{chain_guards, guarded}

abbrev health_check : Request
health_check = record {
  method = "GET";
  path = "/health";
  body = none;
  cleaned = none;
  is_star = false;
}

abbrev panic_request : Request
panic_request = record {
  method = "GET";
  path = "/panic";
  body = none;
  cleaned = none;
  is_star = false;
}

abbrev bad_echo : Request
bad_echo = record { method = "POST"; path = "/echo"; body = none; cleaned = none; is_star = false }

health-run : new_router health_check untouched ≡ (
  record { status = some 200; body = envelope status_ok ∷ []; log = logged health_check ∷ [] },
  none,
)
unfolding new_router chain wrap_all mux routes logging recoverer handle_health write_json
    write_header http_error
health-run = refl

panic-run : new_router panic_request untouched ≡ (
  record {
    status = some 500;
    body = plain "internal server error" ∷ [];
    log = recovered "intentional panic — recovered by middleware" ∷ logged panic_request ∷ [];
  },
  none,
)
unfolding new_router chain wrap_all mux routes logging recoverer handle_panic http_error
    write_header
panic-run = refl

-- A path with a double slash.
abbrev double_slash : Request
double_slash = record {
  method = "GET";
  path = "//health";
  body = none;
  cleaned = some "/health";
  is_star = false;
}

redirect-run : new_router double_slash untouched ≡ (
  record { status = some 301; body = moved_to "/health" ∷ []; log = logged double_slash ∷ [] },
  none,
)
unfolding new_router chain wrap_all mux logging recoverer redirect write_header
redirect-run = refl

-- A handler that panics after its status is sent.
abbrev late_panic : Handler
late_panic r x = (write_header 200 x, some "late")

chain_guards_instance :
    chain late_panic (logging ∷ recoverer ∷ []) health_check untouched
    ≡ (guarded health_check (late_panic health_check untouched), none)
chain_guards_instance = chain_guards late_panic health_check untouched
