-- ===== src/Sqlite/Transactions.antt =====
-- What the inserts and the two transactions leave in the table.
use go_examples.Base.{
  ℕ, ◌+◌, ◌≡◌, refl, ap, ◌∙◌, ◌⊎◌, inl, inr, Bool, true, false, [], ◌∷◌, ◌++◌, Result, ok, err,
  length, length-append, if◌then◌else◌,
}
use go_examples.Sqlite.{Book, Engine, SqlError, transactions}

module _ (e : Engine) where
  open e use {Db, books, insert}

  -- The row of the committed transaction.
  abbrev pub committed_row : Db → Book
  committed_row d = record {
    id = (insert "100 Go Mistakes" 2022 d).1;
    title = "100 Go Mistakes";
    year = 2022;
  }

  -- The table is as it was and an error is reported, or it has the row of the first transaction
  -- more, nothing of the second one, and an error or the number of rows is reported.
  abbrev pub Outcome : Db → Db × Result SqlError ℕ → Type 0
  Outcome d (d', r) =
      ((books d' ≡ books d) × (x : SqlError) × (r ≡ err x))
      ⊎ ((books d' ≡ books d ++ committed_row d ∷ [])
          × (((x : SqlError) × (r ≡ err x)) ⊎ (r ≡ ok (length (books d) + 1))))

  either :
      (d : Db) (c : Bool) (x y : Db × Result SqlError ℕ)
      → Outcome d x
      → Outcome d y
      → Outcome d (if c then x else y)
  either d true x y h k = h
  either d false x y h k = k

  abbrev first_fails : (d : Db) (x : SqlError) → Outcome d (d, err x)
  first_fails d x = inl (refl, x, refl)

  second_fails : (d : Db) (x : SqlError) → Outcome d ((insert "100 Go Mistakes" 2022 d).0, err x)
  second_fails d x = inr (e.books-insert "100 Go Mistakes" 2022 d, inl (x, refl))

  counted :
      (d : Db)
      → let d1 = (insert "100 Go Mistakes" 2022 d).0 in Outcome d (d1, ok (length (books d1)))
  counted d =
      let rows = e.books-insert "100 Go Mistakes" 2022 d in
      inr (rows, inr (ap ok (ap length rows ∙ length-append (books d) (committed_row d ∷ []))))

  -- However its calls fail, `transactions` leaves the table as it was and reports an error, or
  -- leaves it with the row of the committed transaction more, and then reports an error of a later
  -- call or the number of rows; nothing of the rolled-back insert is left.
  pub transactions_atomic : (fails : ℕ → Bool) (d : Db) → Outcome d (transactions e fails d)
  unfolding transactions
  transactions_atomic fails d = either d (fails 0) _ _ (first_fails d _) (
      either d (fails 1) _ _ (first_fails d _) (
        either d (fails 2) _ _ (first_fails d _) (
          either d (fails 3) _ _ (second_fails d _) (
            either d (fails 4) _ _ (second_fails d _) (
              either d (fails 5) _ _ (second_fails d _)
                (either d (fails 6) _ _ (second_fails d _) (counted d)))))))
