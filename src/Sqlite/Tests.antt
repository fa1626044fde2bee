-- ===== src/Sqlite/Tests.antt =====
-- An engine in memory, and the calls of main.go on it.
use Prim.Native.String.{String, compare}
use text.Mathlib.Text.{is_le}
use go_examples.Base.{
  ℕ, ◌+◌, ◌≡◌, refl, Bool, false, List, [], ◌∷◌, ◌++◌, none, ok, err, leaf, wrap, ◌==◌, length,
  if◌then◌else◌,
}
use go_examples.Sqlite.{
  Book, Engine, catalogue, insert_books, query_books, query_single_book, transactions, err_no_rows,
  querying_newest,
}
use go_examples.Sqlite.Transactions.{Outcome, transactions_atomic}
use go_examples.Sqlite.Running.{Failures, run, Left, run-Left}

abbrev next_book : String → ℕ → List Book → Book
next_book title year d = record { id = length d + 1; title = title; year = year }

abbrev insert_by_title : Book → List Book → List Book
insert_by_title b [] = b ∷ []
insert_by_title b (c ∷ cs) =
    if is_le (compare b.title c.title) then b ∷ c ∷ cs else c ∷ insert_by_title b cs

abbrev sort_by_title : List Book → List Book
sort_by_title [] = []
sort_by_title (b ∷ bs) = insert_by_title b (sort_by_title bs)

abbrev memory : Engine
memory = record {
  Db = List Book;
  books = λ d. d;
  insert = λ title year d. (d ++ next_book title year d ∷ [], length d + 1);
  order_by_title = sort_by_title;
  books-insert = λ title year d. refl;
}

abbrev never : ℕ → Bool
never i = false

abbrev filled : List Book
filled =
    next_book "The Go Programming Language" 2015 []
    ∷ record { id = 2; title = "Go in Action"; year = 2015 }
    ∷ record { id = 3; title = "Learning Go"; year = 2021 }
    ∷ []

inserted : insert_books memory never never 0 catalogue [] ≡ (filled, ok tt)
unfolding insert_books
inserted = refl

from_2015 :
    query_books memory false never false filled
    ≡ ok ("Go in Action" ∷ "The Go Programming Language" ∷ [])
unfolding query_books
from_2015 = refl

newest :
    query_single_book memory false false filled
    ≡ ok (record { id = 3; title = "Learning Go"; year = 2021 }, none)
unfolding query_single_book
newest = refl

nothing_new :
    query_single_book memory false false [] ≡ err (wrap querying_newest (leaf err_no_rows))
unfolding query_single_book
nothing_new = refl

-- The rollback fails.
transactions_atomic_instance : Outcome memory filled (transactions memory (λ i. i == 5) filled)
transactions_atomic_instance = transactions_atomic memory (λ i. i == 5) filled

four_books : (transactions memory never filled).1 ≡ ok 4
unfolding transactions
four_books = refl

abbrev no_failure : Failures
no_failure = record {
  schema = false;
  inserts = never;
  no_id = never;
  query = false;
  scans = never;
  iteration = false;
  newest = false;
  future = false;
  in_transactions = never;
}

whole_run : (run memory no_failure []).1 ≡ ok 4
unfolding run insert_books query_books query_single_book transactions
whole_run = refl

-- The second insert fails.
run-Left_example : Left memory [] (run memory (record no_failure { inserts = λ i. i == 1 }) [])
run-Left_example = run-Left memory (record no_failure { inserts = λ i. i == 1 }) []
