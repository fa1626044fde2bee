-- ===== src/Sqlite/Running.antt =====
-- `run`: the steps one after the other, until one fails, and what they leave in the table.
use Prim.Native.String.{String}
use mathlib.Core.List.{append_assoc, append-nil}
use go_examples.Base.{
  ℕ, suc, ◌≡◌, refl, ap, ◌∙◌, sym, inl, inr, Bool, List, [], ◌∷◌, ◌++◌, Result, ok, err, length,
  if◌then◌else◌, either_branch, arith, length-append,
}
use go_examples.Sqlite.{
  Book, Engine, SqlError, sql, creating_schema, catalogue, insert_books, query_books,
  query_single_book, transactions,
}
use go_examples.Sqlite.Transactions.{committed_row, Outcome, transactions_atomic}

-- Which calls fail.
pub record Failures : Type 0 where
  pub schema : Bool
  pub inserts : ℕ → Bool
  pub no_id : ℕ → Bool
  pub query : Bool
  pub scans : ℕ → Bool
  pub iteration : Bool
  pub newest : Bool
  pub future : Bool
  pub in_transactions : ℕ → Bool

abbrev pub entries_of : List Book → List (String × ℕ)
entries_of [] = []
entries_of (b ∷ bs) = (b.title, b.year) ∷ entries_of bs

module _ (e : Engine) where
  open e use {Db, books, insert}

  abbrev pub read_step :
      {A : Type 0} → Result SqlError A → (Db → Db × Result SqlError ℕ) → Db → Db × Result SqlError ℕ
  read_step (err x) k d = (d, err x)
  read_step (ok a) k d = k d

  abbrev pub write_step :
      Db × Result SqlError (Unit {0}) → (Db → Db × Result SqlError ℕ) → Db × Result SqlError ℕ
  write_step (d, err x) k = (d, err x)
  write_step (d, ok u) k = k d

  abbrev pub after_inserts : Failures → Db → Db × Result SqlError ℕ
  after_inserts f d =
      read_step (query_books e f.query f.scans f.iteration d)
        (read_step (query_single_book e f.newest f.future d) (transactions e f.in_transactions)) d

  -- From the empty table that CREATE TABLE makes of the new database; the result is the count of `transactions`.
  unfoldable pub run : Failures → Db → Db × Result SqlError ℕ
  run f d =
      if f.schema
      then (d, err (sql creating_schema))
      else write_step (insert_books e f.inserts f.no_id 0 catalogue d) (after_inserts f)

  abbrev pub entries : Db → List (String × ℕ)
  entries d = entries_of (books d)

  entries_of-append : (xs ys : List Book) → entries_of (xs ++ ys) ≡ entries_of xs ++ entries_of ys
  entries_of-append [] ys = refl
  entries_of-append (x ∷ xs) ys = ap (λ t. (x.title, x.year) ∷ t) (entries_of-append xs ys)

  entries-insert :
      (title : String) (year : ℕ) (d : Db)
      → entries (insert title year d).0 ≡ entries d ++ (title, year) ∷ []
  entries-insert title year d =
      ap entries_of (e.books-insert title year d) ∙ entries_of-append (books d) _

  -- The rows added are the first ones of the list, in its order.
  abbrev pub Added : List (String × ℕ) → Db → Db → Type 0
  Added list d d' =
      (done rest : List (String × ℕ)) × (entries d' ≡ entries d ++ done) × (done ++ rest ≡ list)

  abbrev pub Inserted : List (String × ℕ) → Db → Db × Result SqlError (Unit {0}) → Type 0
  Inserted list d (d', ok u) = entries d' ≡ entries d ++ list
  Inserted list d (d', err x) = Added list d d'

  one_more :
      (title : String) (year : ℕ) (list : List (String × ℕ)) (d : Db)
      → (x : Db × Result SqlError (Unit {0})) → Inserted list (insert title year d).0 x
      → Inserted ((title, year) ∷ list) d x
  one_more title year list d (d', ok u) h =
      h ∙ ap (λ t. t ++ list) (entries-insert title year d) ∙ append_assoc (entries d) _ list
  one_more title year list d (d', err x) (done, rest, h, l) = (
    (title, year) ∷ done,
    rest,
    h ∙ ap (λ t. t ++ done) (entries-insert title year d) ∙ append_assoc (entries d) _ done,
    ap (λ t. (title, year) ∷ t) l,
  )

  none_of_list : (list : List (String × ℕ)) (d : Db) → Added list d d
  none_of_list list d = ([], list, sym (append-nil (entries d)), refl)

  insert_books-Inserted :
      (fails no_id : ℕ → Bool) (i : ℕ) (list : List (String × ℕ)) (d : Db)
      → Inserted list d (insert_books e fails no_id i list d)
  unfolding insert_books
  insert_books-Inserted fails no_id i [] d = sym (append-nil (entries d))
  insert_books-Inserted fails no_id i ((title, year) ∷ list) d =
      let d1 = (insert title year d).0 in
      let all = (title, year) ∷ list in
      either_branch (Inserted all d) (fails i) _ _ (λ _. none_of_list all d)
        λ _.
          either_branch (Inserted all d) (no_id i) _ _
            (λ _. ((title, year) ∷ [], list, entries-insert title year d, refl))
            (λ _. one_more title year list d _ (insert_books-Inserted fails no_id (suc i) list d1))

  abbrev pub everything : List (String × ℕ)
  everything = catalogue ++ ("100 Go Mistakes", 2022) ∷ []

  -- An error, with the first rows of everything; or the number of rows, with all of them.
  abbrev pub Left : Db → Db × Result SqlError ℕ → Type 0
  Left d (d', err x) = Added everything d d'
  Left d (d', ok n) = (entries d' ≡ entries d ++ everything) × (n ≡ length (books d'))

  in_catalogue : (d d' : Db) → entries d' ≡ entries d ++ catalogue → Added everything d d'
  in_catalogue d d' h = (catalogue, ("100 Go Mistakes", 2022) ∷ [], h, refl)

  all_rows :
      (d d1 d' : Db)
      → entries d1 ≡ entries d ++ catalogue
      → books d' ≡ books d1 ++ committed_row e d1 ∷ []
      → entries d' ≡ entries d ++ everything
  all_rows d d1 d' h b =
      ap entries_of b
      ∙ entries_of-append (books d1) _
      ∙ ap (λ t. t ++ ("100 Go Mistakes", 2022) ∷ []) h
      ∙ append_assoc (entries d) catalogue _

  transactions-Left :
      (d d1 : Db) (x : Db × Result SqlError ℕ)
      → entries d1 ≡ entries d ++ catalogue
      → Outcome e d1 x
      → Left d x
  transactions-Left d d1 (d', err y) h (inl (b, z, o)) = in_catalogue d d' (ap entries_of b ∙ h)
  transactions-Left d d1 (d', err y) h (inr (b, o)) =
      (everything, [], all_rows d d1 d' h b, append-nil everything)
  transactions-Left d d1 (d', ok n) h (inl (b, y, q)) = ground (arith, q)
  transactions-Left d d1 (d', ok n) h (inr (b, inl (y, q))) = ground (arith, q)
  transactions-Left d d1 (d', ok n) h (inr (b, inr q)) = (
    all_rows d d1 d' h b,
    ground (arith, q, ap length b, length-append (books d1) (committed_row e d1 ∷ [])),
  )

  read-Left :
      {A : Type 0} (r : Result SqlError A) (k : Db → Db × Result SqlError ℕ) (d d1 : Db)
      → entries d1 ≡ entries d ++ catalogue
      → Left d (k d1)
      → Left d (read_step r k d1)
  read-Left (err x) k d d1 h l = in_catalogue d d1 h
  read-Left (ok a) k d d1 h l = l

  more_to_come :
      (done rest : List (String × ℕ))
      → done ++ rest ≡ catalogue
      → done ++ (rest ++ ("100 Go Mistakes", 2022) ∷ []) ≡ everything
  more_to_come done rest l =
      sym (append_assoc done rest _) ∙ ap (λ t. t ++ ("100 Go Mistakes", 2022) ∷ []) l

  inserts-Left :
      (f : Failures) (d : Db) (x : Db × Result SqlError (Unit {0}))
      → Inserted catalogue d x
      → Left d (write_step x (after_inserts f))
  inserts-Left f d (d', err x) (done, rest, h, l) =
      (done, rest ++ ("100 Go Mistakes", 2022) ∷ [], h, more_to_come done rest l)
  inserts-Left f d (d1, ok u) h =
      read-Left (query_books e f.query f.scans f.iteration d1) _ d d1 h (
        read-Left (query_single_book e f.newest f.future d1) _ d d1 h
          (transactions-Left d d1 _ h (transactions_atomic e f.in_transactions d1)))

  -- Whichever calls fail, `run` adds the first rows of the catalogue and the committed book, in their order; it
  -- reports an error unless it has added all of them, and then the number of the rows.
  pub run-Left : (f : Failures) (d : Db) → Left d (run f d)
  unfolding run
  run-Left f d =
      either_branch (Left d) f.schema _ _ (λ _. none_of_list everything d)
        (λ _. inserts-Left f d _ (insert_books-Inserted f.inserts f.no_id 0 catalogue d))
