-- ===== src/HttpServer/Router.antt =====
-- The answers of the router to every request.
use Prim.Native.String.{String}
use text.Mathlib.Text.{◌==◌ as str_eq}
use go_examples.Base.{ℕ, ◌≡◌, ◌⊎◌, true, false, [], ◌∷◌, none, some}
use go_examples.HttpServer.{Request, logged, recovered, Exchange}

abbrev answered : Exchange → ℕ
answered x = elim x.status [ none ↦ 0 | some s ↦ s ]

pub record IsAnswered (r : Request) (x : Exchange) : Type 0 where
  known :
      (answered x ≡ 200)
      ⊎ (answered x ≡ 301)
      ⊎ (answered x ≡ 400)
      ⊎ (answered x ≡ 404)
      ⊎ (answered x ≡ 405)
      ⊎ (answered x ≡ 500)
  good : answered x ≡ 200 → (str_eq r.path "/health" ≡ true) ⊎ (str_eq r.path "/echo" ≡ true)
  moved : answered x ≡ 301 → (r.is_star ≡ false) × (p : String) × (r.cleaned ≡ some p)
  bad :
      answered x ≡ 400
      → (r.is_star ≡ true)
        ⊎ ((str_eq r.path "/echo" ≡ true) × (str_eq r.method "POST" ≡ true) × (r.body ≡ none))
  failed : answered x ≡ 500 → str_eq r.path "/panic" ≡ true
  logs :
      (x.log ≡ logged r ∷ [])
      ⊎ ((answered x ≡ 500)
          × (x.log ≡ recovered "intentional panic — recovered by middleware" ∷ logged r ∷ []))
