-- ===== src/UserApi.antt =====
-- examples/httptest/main.go. net/http routes a request to its handler and carries the response; the
-- write of a response body to the client is taken to succeed. The mutex makes each handler's access
-- to the store one step.
pub mod Store
mod Tests
use Prim.Native.String.{String}
use text.Mathlib.Text.{◌==◌ as str_eq}
use go_examples.Base.{
  ℕ, suc, ◌+◌, Bool, true, false, List, [], ◌∷◌, Option, none, some, Result, ok, err, Error, leaf,
  wrap, ◌==◌, if◌then◌else◌,
}

-- An id in a path: what `strconv.Itoa` prints of a number, or another text.
pub data UserId : Type 0 where
  itoa : ℕ → UserId
  other : String → UserId

abbrev pub same_id : UserId → UserId → Bool
same_id (itoa m) (itoa n) = m == n
same_id (other s) (other t) = str_eq s t
same_id _ _ = false

pub record User : Type 0 where
  pub id : UserId
  pub name : String

pub record UserServer : Type 0 where
  pub next_id : ℕ
  pub users : UserId → Option User

unfoldable pub new_user_server : UserServer
new_user_server = record { next_id = 1; users = λ i. none }

-- The routes of `Mux`. The body of a POST is decoded to its name, or not at all.
pub data Request : Type 0 where
  healthz unrouted : Request
  create_user : Option String → Request
  get_user : UserId → Request

pub data Body : Type 0 where
  plain_text : String → Body
  json : User → Body

pub record Response : Type 0 where
  pub status : ℕ
  pub body : Body

abbrev pub reply : ℕ → Body → Response
reply status body = record { status = status; body = body }

abbrev pub bad_body : Response
bad_body = reply 400 (plain_text "body must be JSON with a non-empty name")

-- The body of `handleCreateUser` once the name is accepted.
unfoldable pub add_user : String → UserServer → UserServer × Response
add_user name s =
    let user : User = record { id = itoa s.next_id; name = name } in
    (
      record {
        next_id = s.next_id + 1;
        users = λ i. if same_id i user.id then some user else s.users i;
      },
      reply 201 (json user),
    )

unfoldable pub handle_create_user : Option String → UserServer → UserServer × Response
unfolding add_user
handle_create_user none s = (s, bad_body)
handle_create_user (some name) s = if str_eq name "" then (s, bad_body) else add_user name s

abbrev pub found : Option User → Response
found none = reply 404 (plain_text "user not found")
found (some user) = reply 200 (json user)

unfoldable pub handle_get_user : UserId → UserServer → UserServer × Response
handle_get_user i s = (s, found (s.users i))

unfoldable pub serve : Request → UserServer → UserServer × Response
unfolding handle_create_user handle_get_user
serve healthz s = (s, reply 200 (plain_text "ok"))
serve unrouted s = (s, reply 404 (plain_text "404 page not found"))
serve (create_user name) s = handle_create_user name s
serve (get_user i) s = handle_get_user i s

unfoldable pub serve_all : List Request → UserServer → UserServer
unfolding serve
serve_all [] s = s
serve_all (r ∷ rs) s = serve_all rs (serve r s).0

pub data Leaf : Type 0 where
  bad_url network bad_json : Leaf
  unexpected_status : ℕ → Leaf

pub data Context : Type 0 where
  decoding_response : Context

-- The decoding of a body into a User.
abbrev pub decode : Body → Result (Error Context Leaf) User
decode (plain_text s) = err (wrap decoding_response (leaf bad_json))
decode (json user) = ok user

-- `FetchUser`, from the outcome of `client.Do`.
unfoldable pub fetch_user : Result Leaf Response → Result (Error Context Leaf) User
fetch_user (err e) = err (leaf e)
fetch_user (ok r) =
    if r.status == 200 then decode r.body else err (leaf (unexpected_status r.status))
