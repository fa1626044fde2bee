-- ===== src/HttpServer/Middleware.antt =====
-- What the middlewares make of any handler.
use Prim.Native.String.{String}
use mathlib.Core.List.{reverse, reverse-append}
use go_examples.Base.{◌≡◌, refl, ap, ◌∙◌, List, [], ◌∷◌, ◌++◌, Option, none, some}
use go_examples.HttpServer.{
  Request, logged, recovered, Exchange, Handler, write_header, http_error, first_status, plain,
  logging, recoverer, wrap_all, chain, log_request, recover,
}

wrap_all-append :
    (h : Handler) (ms ns : List (Handler → Handler))
    → wrap_all h (ms ++ ns) ≡ wrap_all (wrap_all h ms) ns
unfolding wrap_all
wrap_all-append h [] ns = refl
wrap_all-append h (m ∷ ms) ns = wrap_all-append (m h) ms ns

-- The first middleware of the list is the outermost.
pub chain-cons :
    (h : Handler) (m : Handler → Handler) (ms : List (Handler → Handler))
    → chain h (m ∷ ms) ≡ m (chain h ms)
unfolding chain wrap_all
chain-cons h m ms =
    ap (wrap_all h) (reverse-append (m ∷ []) ms) ∙ wrap_all-append h (reverse ms) (m ∷ [])

-- What the client and the log get from a handler behind logging and recoverer.
abbrev pub guarded : Request → Exchange × Option String → Exchange
guarded r (x, none) = record x { log = x.log ++ logged r ∷ [] }
guarded r (x, some p) = record x {
  status = first_status 500 x.status;
  body = x.body ++ plain "internal server error" ∷ [];
  log = (x.log ++ recovered p ∷ []) ++ logged r ∷ [];
}

guarded-recover :
    (r : Request) (o : Exchange × Option String) → log_request r (recover o) ≡ (guarded r o, none)
unfolding http_error write_header
guarded-recover r (x, none) = refl
guarded-recover r (x, some p) = refl

-- Behind logging and recoverer no handler panics. One that ends keeps its response; one that panics
-- keeps the status it has sent, or answers 500, has the error text appended to its body, and its
-- panic is logged; and the request is logged after that in either case.
pub chain_guards :
    (h : Handler) (r : Request) (x : Exchange)
    → chain h (logging ∷ recoverer ∷ []) r x ≡ (guarded r (h r x), none)
unfolding chain wrap_all logging recoverer
chain_guards h r x = guarded-recover r (h r x)
