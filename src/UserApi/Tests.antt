-- ===== src/UserApi/Tests.antt =====
-- Two users, of which the first is fetched back.
use go_examples.Base.{◌≡◌, refl, List, [], ◌∷◌, some, ok, err, leaf}
use go_examples.UserApi.{
  itoa, other, User, new_user_server, json, Request, create_user, get_user, add_user,
  handle_create_user, handle_get_user, serve, serve_all, fetch_user, unexpected_status,
}
use go_examples.UserApi.Store.{IsNumbered, created_user_fetched, serve_all-IsNumbered}

abbrev ada : User
ada = record { id = itoa 1; name = "Ada" }

abbrev later : List Request
later = create_user (some "Grace") ∷ create_user (some "") ∷ get_user (itoa 2) ∷ []

created_user_fetched_example :
    ((serve (create_user (some "Ada")) new_user_server).1
      ≡ record { status = 201; body = json ada })
    × (fetch_user (
          ok
            (serve
              (get_user (itoa 1))
              (serve_all later (serve (create_user (some "Ada")) new_user_server).0)).1)
        ≡ ok ada)
unfolding new_user_server
created_user_fetched_example = created_user_fetched "Ada" new_user_server later refl

serve_all-IsNumbered_instance : IsNumbered (serve_all later new_user_server)
serve_all-IsNumbered_instance = serve_all-IsNumbered later

missing :
    fetch_user (ok (serve (get_user (other "x")) (serve_all later new_user_server)).1)
    ≡ err (leaf (unexpected_status 404))
unfolding fetch_user serve handle_get_user serve_all handle_create_user add_user new_user_server
missing = refl
