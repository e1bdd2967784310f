-- ===== src/Sqlite/Replies.antt =====
-- What the methods of runtime/ntl-store-sqlite/src/lib.rs make of the rows that a query gives.
use ntl.Base.{Option, none, some, List, [], ◌∷◌, Result, ok, err}
use ntl.Store.{unavailable, Read}
use ntl.Sqlite.{Row, SqlError, read_err}
use ntl.Sqlite.Rows.{◌>>=◌}

abbrev pub or_read_err : {A : Type 0} → Result SqlError A → Read A
or_read_err (ok a) = ok a
or_read_err (err e) = err (read_err e)

-- `Option::transpose`
abbrev pub transpose : {A : Type 0} → Option (Read A) → Read (Option A)
transpose none = ok none
transpose (some (ok a)) = ok (some a)
transpose (some (err e)) = err e

-- `query_row` without `optional`: a query without a row is an error.
abbrev pub needed : {A : Type 0} → Read (Option A) → Read A
needed (ok none) = err unavailable
needed (ok (some a)) = ok a
needed (err e) = err e

module _ {D : Type 0} where
  -- `optional` and `map_err`: the first row of a query, if there is one, and what it holds.
  abbrev pub first_row :
      {A : Type 0}
      → (Row D → Result SqlError A)
      → List (Result SqlError (Row D))
      → Result SqlError (Option A)
  first_row f [] = ok none
  first_row f (ok row ∷ rest) = f row >>= (λ a. ok (some a))
  first_row f (err e ∷ rest) = err e

  unfoldable pub optional :
      {A : Type 0}
      → (Row D → Result SqlError A)
      → Result SqlError (List (Result SqlError (Row D)))
      → Read (Option A)
  unfolding ◌>>=◌
  optional f reply = or_read_err (reply >>= first_row f)

  -- The loop over the rows of a query, which stops at the first error.
  unfoldable pub collect :
      {A : Type 0}
      → (Row D → Result SqlError (Read A))
      → List (Result SqlError (Row D))
      → Read (List A)
  unfolding ◌>>=◌
  collect f [] = ok []
  collect f (r ∷ rest) =
      or_read_err (r >>= f)
      >>= (λ decoded. decoded >>= (λ a. collect f rest >>= (λ out. ok (a ∷ out))))

  unfoldable pub all_rows :
      {A : Type 0}
      → (Row D → Result SqlError (Read A))
      → Result SqlError (List (Result SqlError (Row D)))
      → Read (List A)
  unfolding collect ◌>>=◌
  all_rows f reply = or_read_err reply >>= collect f
