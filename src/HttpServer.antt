-- ===== src/HttpServer.antt =====
-- examples/http-server/main.go: middleware, handlers and routes. A handler writes to the response and
-- ends, or panics. The log has the requests that `logging` reports and the panics that `recoverer` does; the
-- first status sent is the one of the response, as net/http has it.
pub mod Middleware
pub mod Router
mod Tests
use Prim.Native.String.{String}
use text.Mathlib.Text.{◌==◌ as str_eq}
use mathlib.Core.List.{reverse}
use go_examples.Base.{
  ℕ, ◌≡◌, Bool, true, false, List, [], ◌∷◌, ◌++◌, Option, none, some, if◌then◌else◌,
}

-- The JSON values of the handlers; the body of a request decodes to a map, or not at all.
pub data Json : Type 0 where
  status_ok invalid_json : Json
  echoed : String → Json

pub data Chunk : Type 0 where
  plain moved_to : String → Chunk
  envelope : Json → Chunk

-- `cleaned` is what the ServeMux redirects to: the path without its double slashes and dots, if that is another
-- one and the method is not CONNECT. `is_star` is for the RequestURI "*".
pub record Request : Type 0 where
  pub method : String
  pub path : String
  pub body : Option String
  pub cleaned : Option String
  pub is_star : Bool

pub data Entry : Type 0 where
  logged : Request → Entry
  recovered : String → Entry

pub record Exchange : Type 0 where
  pub status : Option ℕ
  pub body : List Chunk
  pub log : List Entry

abbrev pub untouched : Exchange
untouched = record { status = none; body = []; log = [] }

-- The exchange after a handler, and its panic if it panics.
abbrev pub Handler : Type 0
Handler = Request → Exchange → Exchange × Option String

abbrev pub first_status : ℕ → Option ℕ → Option ℕ
first_status s none = some s
first_status s (some t) = some t

unfoldable pub write_header : ℕ → Exchange → Exchange
write_header s x = record x { status = first_status s x.status }

abbrev pub write_chunk : Chunk → Exchange → Exchange
write_chunk c x = record x { body = x.body ++ c ∷ [] }

-- `http.Error`
unfoldable pub http_error : String → ℕ → Exchange → Exchange
unfolding write_header
http_error message s x = write_chunk (plain message) (write_header s x)

abbrev pub log_request : Request → Exchange × Option String → Exchange × Option String
log_request r (x, some p) = (x, some p)
log_request r (x, none) = (record x { log = x.log ++ logged r ∷ [] }, none)

unfoldable pub logging : Handler → Handler
logging next r x = log_request r (next r x)

-- The deferred function of `recoverer`.
abbrev pub recover : Exchange × Option String → Exchange × Option String
recover (x, none) = (x, none)
recover (x, some p) =
    (http_error "internal server error" 500 (record x { log = x.log ++ recovered p ∷ [] }), none)

unfoldable pub recoverer : Handler → Handler
recoverer next r x = recover (next r x)

-- The loop of `chain`, over the middlewares from the last to the first.
unfoldable pub wrap_all : Handler → List (Handler → Handler) → Handler
wrap_all h [] = h
wrap_all h (m ∷ ms) = wrap_all (m h) ms

unfoldable pub chain : Handler → List (Handler → Handler) → Handler
unfolding wrap_all
chain h middlewares = wrap_all h (reverse middlewares)

-- The encoding of these values does not fail.
unfoldable pub write_json : ℕ → Json → Exchange → Exchange
unfolding write_header
write_json s v x = write_chunk (envelope v) (write_header s x)

unfoldable pub handle_health : Handler
unfolding write_json
handle_health r x = (write_json 200 status_ok x, none)

abbrev pub echo_body : Option String → Exchange → Exchange
echo_body none x = write_json 400 invalid_json x
echo_body (some b) x = write_json 200 (echoed b) x

unfoldable pub handle_echo : Handler
unfolding write_json http_error
handle_echo r x =
    if str_eq r.method "POST"
    then (echo_body r.body x, none)
    else (http_error "method not allowed" 405 x, none)

unfoldable pub handle_panic : Handler
handle_panic r x = (x, some "intentional panic — recovered by middleware")

-- A pattern with GET is for HEAD requests too.
abbrev pub matches_method : String → String → Bool
matches_method method m =
    if str_eq m method then true else if str_eq method "GET" then str_eq m "HEAD" else false

-- A path that is registered with another method answers 405.
abbrev pub pattern_for : String → Handler → Handler
pattern_for method h r x =
    if matches_method method r.method then h r x else (http_error "Method Not Allowed" 405 x, none)

-- The patterns of `newRouter`.
unfoldable pub routes : Handler
unfolding handle_health handle_echo handle_panic http_error
routes r x =
    if str_eq r.path "/health"
    then pattern_for "GET" handle_health r x
    else if str_eq r.path "/echo"
    then pattern_for "POST" handle_echo r x
    else if str_eq r.path "/panic"
    then pattern_for "GET" handle_panic r x
    else (http_error "404 page not found" 404 x, none)

-- `http.Redirect`, which has a body for GET.
unfoldable pub redirect : String → Handler
unfolding write_header
redirect p r x =
    let moved = write_header 301 x in
    (if str_eq r.method "GET" then write_chunk (moved_to p) moved else moved, none)

-- The ServeMux: it answers "*" itself, and redirects a path that is not clean.
abbrev pub cleaning : Option String → Handler
cleaning none r x = routes r x
cleaning (some p) r x = redirect p r x

unfoldable pub mux : Handler
unfolding routes redirect write_header
mux r x = if r.is_star then (write_header 400 x, none) else cleaning r.cleaned r x

unfoldable pub new_router : Handler
unfolding chain mux logging recoverer
new_router = chain mux (logging ∷ recoverer ∷ [])
