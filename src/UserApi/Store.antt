-- ===== src/UserApi/Store.antt =====
-- What the store answers after any requests.
use Prim.Native.String.{String}
use text.Mathlib.Text.{◌==◌ as str_eq}
use go_examples.Base.{
  ℕ, ◌≤◌, ◌<◌, ◌≡◌, refl, ◌⊎◌, inl, inr, false, List, [], ◌∷◌, none, some, ok, arith, ◌==◌,
  Bool-cases,
}
use go_examples.UserApi.{
  json, itoa, other, User, UserServer, new_user_server, Request, healthz, unrouted, create_user,
  get_user, add_user, handle_create_user, handle_get_user, serve, serve_all, fetch_user,
}

-- The store holds `user` under the number `n`, which has been given out.
abbrev Holds : ℕ → User → UserServer → Type 0
Holds n user s = (n < s.next_id) × (s.users (itoa n) ≡ some user)

serve-Holds :
    (r : Request) (n : ℕ) (user : User) (s : UserServer)
    → Holds n user s
    → Holds n user (serve r s).0
unfolding serve handle_create_user handle_get_user add_user
serve-Holds healthz n user s h = h
serve-Holds unrouted n user s h = h
serve-Holds (get_user i) n user s h = h
serve-Holds (create_user none) n user s h = h
serve-Holds (create_user (some name)) n user s (l, e) = (ground (arith, l), ground (arith, l, e))

serve_all-Holds :
    (rs : List Request) (n : ℕ) (user : User) (s : UserServer)
    → Holds n user s
    → Holds n user (serve_all rs s)
unfolding serve_all
serve_all-Holds [] n user s h = h
serve_all-Holds (r ∷ rs) n user s h =
    serve_all-Holds rs n user (serve r s).0 (serve-Holds r n user s h)

-- A POST with a non-empty name answers 201 with a new user, and from then on, after any further
-- requests, FetchUser of its id returns that user.
pub created_user_fetched :
    (name : String) (s : UserServer) (rs : List Request)
    → str_eq name "" ≡ false
    → let user : User = record { id = itoa s.next_id; name = name } in
      let (s1, created) = serve (create_user (some name)) s in
      (created ≡ record { status = 201; body = json user })
      × (fetch_user (ok (serve (get_user user.id) (serve_all rs s1)).1) ≡ ok user)
unfolding serve handle_create_user add_user handle_get_user fetch_user
created_user_fetched name s rs h =
    let user : User = record { id = itoa s.next_id; name = name } in
    let (l, e) =
      serve_all-Holds rs s.next_id user (serve (create_user (some name)) s).0
        (ground (arith, h), ground (arith, h)) in
    (ground (arith, h), ground (arith, e))

-- The numbers from 1 to below next_id have users with that id and a name, and nothing else has.
pub record IsNumbered (s : UserServer) : Type 0 where
  pub positive : 1 ≤ s.next_id
  pub numbered :
      (i : ℕ)
      → 1 ≤ i
      → i < s.next_id
      → (user : User) × (s.users (itoa i) ≡ some user)
        × (user.id ≡ itoa i)
        × (str_eq user.name "" ≡ false)
  pub unknown : (i : ℕ) → (i ≡ 0) ⊎ (s.next_id ≤ i) → s.users (itoa i) ≡ none
  pub foreign : (t : String) → s.users (other t) ≡ none

add_user-IsNumbered :
    (name : String) (s : UserServer)
    → str_eq name "" ≡ false
    → IsNumbered s
    → IsNumbered (add_user name s).0
unfolding add_user
add_user-IsNumbered name s h r = record {
  positive = omega arith;
  numbered = λ i p l. elim (Bool-cases (i == s.next_id)) [
    | inl t ↦ (record { id = itoa s.next_id; name = name }, ground (arith, t), ground (arith, t), h)
    | inr t ↦
        let (user, e, k, m) = r.numbered i p (ground (arith, t)) in
        (user, ground (arith, t, e), k, m)
  ];
  unknown = λ i o. ground (arith, r.unknown i, r.positive);
  foreign = λ t. r.foreign t;
}

serve-IsNumbered : (r : Request) (s : UserServer) → IsNumbered s → IsNumbered (serve r s).0
unfolding serve handle_create_user handle_get_user
serve-IsNumbered healthz s h = h
serve-IsNumbered unrouted s h = h
serve-IsNumbered (get_user i) s h = h
serve-IsNumbered (create_user none) s h = h
serve-IsNumbered (create_user (some name)) s h = elim (Bool-cases (str_eq name "")) [
  | inl t ↦ rw t h
  | inr t ↦ rw t (add_user-IsNumbered name s t h)
]

from-IsNumbered : (rs : List Request) (s : UserServer) → IsNumbered s → IsNumbered (serve_all rs s)
unfolding serve_all
from-IsNumbered [] s h = h
from-IsNumbered (r ∷ rs) s h = from-IsNumbered rs (serve r s).0 (serve-IsNumbered r s h)

-- After any requests to a new server, exactly the numbers from 1 to below next_id have users, each
-- with its number as the id and a non-empty name; a GET of any other id finds none.
pub serve_all-IsNumbered : (rs : List Request) → IsNumbered (serve_all rs new_user_server)
unfolding new_user_server
serve_all-IsNumbered rs = from-IsNumbered rs new_user_server (record {
  positive = omega arith;
  numbered = λ i p l. ground arith;
  unknown = λ i o. refl;
  foreign = λ t. refl;
})
