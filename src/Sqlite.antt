-- ===== src/Sqlite.antt =====
-- examples/sqlite/main.go, over an interface of the SQL engine, which is not part of the repository.
-- Whether each call fails is an argument; a statement that fails has no effect.
pub mod Transactions
pub mod Running
mod Tests
use Prim.Native.String.{String}
use go_examples.Base.{
  ℕ, zero, suc, ◌+◌, ◌≡◌, Bool, true, false, List, [], ◌∷◌, ◌++◌, Option, none, some, Result, ok,
  err, Error, leaf, wrap, ◌>>=◌, ◌>>◌, ltb, ◌==◌, if◌then◌else◌, length,
}

pub record Book : Type 0 where
  pub id : ℕ
  pub title : String
  pub year : ℕ

-- The table `books` in the order of its ids, and INSERT, which appends a row.
pub record Engine : Type 1 where
  pub Db : Type 0
  pub books : Db → List Book
  pub insert : String → ℕ → Db → Db × ℕ
  pub order_by_title : List Book → List Book
  pub books-insert :
      (title : String) (year : ℕ) (d : Db)
      → books (insert title year d).0
        ≡ books d ++ record { id = (insert title year d).1; title = title; year = year } ∷ []

pub data Leaf : Type 0 where
  sql_error err_no_rows : Leaf

pub data Context : Type 0 where
  creating_schema reading_generated_id querying_books scanning_row iterating_rows : Context
  querying_newest querying_future beginning_tx inserting_in_tx committing rolling_back : Context
  counting_books : Context
  inserting : String → Context

abbrev pub SqlError : Type 0
SqlError = Error Context Leaf

abbrev pub sql : Context → SqlError
sql c = wrap c (leaf sql_error)

abbrev pub catalogue : List (String × ℕ)
catalogue =
    ("The Go Programming Language", 2015) ∷ ("Go in Action", 2015) ∷ ("Learning Go", 2021) ∷ []

-- `WHERE year = ?` and `WHERE year > ?`
abbrev pub of_year : ℕ → List Book → List Book
of_year y [] = []
of_year y (b ∷ bs) = if b.year == y then b ∷ of_year y bs else of_year y bs

abbrev pub after_year : ℕ → List Book → List Book
after_year y [] = []
after_year y (b ∷ bs) = if ltb y b.year then b ∷ after_year y bs else after_year y bs

-- The loop of `queryBooks`: whether the scan of each row fails.
abbrev pub scan_rows : (ℕ → Bool) → ℕ → List Book → Result SqlError (List String)
scan_rows fails i [] = ok []
scan_rows fails i (b ∷ bs) =
    let rest = scan_rows fails (suc i) bs in
    if fails i then err (sql scanning_row) else rest >>= λ titles. ok (b.title ∷ titles)

-- `QueryRow(...).Scan(...)`
abbrev pub first_row : Bool → List Book → Result Leaf Book
first_row true bs = err sql_error
first_row false [] = err err_no_rows
first_row false (b ∷ bs) = ok b

module _ (e : Engine) where
  open e use {Db, books, insert, order_by_title}

  -- The loop of `insertBooks`: `fails` is asked for the INSERT of each book, and `no_id` for its
  -- generated key.
  unfoldable pub insert_books :
      (ℕ → Bool) → (ℕ → Bool) → ℕ → List (String × ℕ) → Db → Db × Result SqlError (Unit {0})
  insert_books fails no_id i [] d = (d, ok tt)
  insert_books fails no_id i ((title, year) ∷ bs) d =
      let (d', id) = insert title year d in
      let rest = insert_books fails no_id (suc i) bs d' in
      if fails i
      then (d, err (sql (inserting title)))
      else if no_id i
      then (d', err (sql reading_generated_id))
      else rest

  -- The titles it prints. `fails` is asked for the query, and at last for
  -- rows.Err.
  unfoldable pub query_books : Bool → (ℕ → Bool) → Bool → Db → Result SqlError (List String)
  query_books query_fails scan_fails iteration_fails d =
      if query_fails
      then err (sql querying_books)
      else scan_rows scan_fails 0 (order_by_title (of_year 2015 (books d))) >>= λ titles.
          if iteration_fails then err (sql iterating_rows) else ok titles

  abbrev pub future_book : Result Leaf Book → Book → Result SqlError (Book × Option Book)
  future_book (ok b) newest = ok (newest, some b)
  future_book (err err_no_rows) newest = ok (newest, none)
  future_book (err x) newest = err (wrap querying_future (leaf x))

  unfoldable pub query_single_book : Bool → Bool → Db → Result SqlError (Book × Option Book)
  query_single_book fails fails' d = elim (first_row fails (after_year 2019 (books d))) [
    | err x ↦ err (wrap querying_newest (leaf x))
    | ok newest ↦ future_book (first_row fails' (after_year 2100 (books d))) newest
  ]

  -- `transactions`: `fails` is asked for each call in its order, BeginTx, Exec, Commit, BeginTx, Exec,
  -- Rollback and the count. A transaction that is not committed leaves the database as it was.
  unfoldable pub transactions : (ℕ → Bool) → Db → Db × Result SqlError ℕ
  transactions fails d =
      let d1 = (insert "100 Go Mistakes" 2022 d).0 in
      if fails 0
      then (d, err (sql beginning_tx))
      else if fails 1
      then (d, err (sql inserting_in_tx))
      else if fails 2
      then (d, err (sql committing))
      else if fails 3
      then (d1, err (sql beginning_tx))
      else if fails 4
      then (d1, err (sql inserting_in_tx))
      else if fails 5
      then (d1, err (sql rolling_back))
      else if fails 6
      then (d1, err (sql counting_books))
      else (d1, ok (length (books d1)))
