-- ===== src/Sqlite/Columns.antt =====
-- The columns of runtime/ntl-store-sqlite/src/schema.rs and what SQLite makes of a value in one.
use ntl.Base.{◌≤◌, ◌&&◌, List, [], ◌∷◌, map, if◌then◌else◌}
use ntl.Float.{Float}
use ntl.Sqlite.{ℤ, pos, negsuc, Value, text, blob, real, integer, null, Row, i64_max}

-- The types of columns, with whether a column takes NULL.
pub data ColumnType : Type 0 where
  text_column blob_column real_column integer_column optional_integer_column : ColumnType

-- The columns of a synapse after both migrations, in the order of the statements.
abbrev pub synapse_types : List ColumnType
synapse_types =
    text_column ∷ blob_column ∷ real_column ∷ real_column ∷ text_column ∷ text_column
    ∷ integer_column ∷ integer_column ∷ integer_column ∷ integer_column ∷ integer_column
    ∷ real_column ∷ integer_column ∷ integer_column ∷ []

-- The columns of the journal after its key.
abbrev pub journal_types : List ColumnType
journal_types =
    blob_column ∷ text_column ∷ text_column ∷ blob_column ∷ real_column ∷ real_column
    ∷ integer_column ∷ integer_column ∷ text_column ∷ optional_integer_column ∷ []

-- An integer of 64 bits with a sign.
abbrev pub IsI64 : ℤ → Type 0
IsI64 (pos v) = v ≤ i64_max
IsI64 (negsuc v) = v ≤ i64_max

module _ {D : Type 0} where
  -- A value of the type of its column, which no affinity converts.
  abbrev pub Fits : ColumnType → Value D → Type 0
  Fits text_column (text t) = Unit {0}
  Fits blob_column (blob b) = Unit {0}
  Fits real_column (real x) = Unit {0}
  Fits integer_column (integer i) = IsI64 i
  Fits optional_integer_column (integer i) = IsI64 i
  Fits optional_integer_column null = Unit {0}
  Fits t v = ⊥

  abbrev pub FitsAll : List ColumnType → Row D → Type 0
  FitsAll [] [] = Unit {0}
  FitsAll (t ∷ ts) (v ∷ vs) = Fits t v × FitsAll ts vs
  FitsAll ts vs = ⊥

  -- A value as it is read back from a column of its type, given what becomes of a number of `f64`.
  abbrev pub at_rest : (D → D) → Value D → Value D
  at_rest rest (real x) = real (rest x)
  at_rest rest v = v

  abbrev pub row_at_rest : (D → D) → Row D → Row D
  row_at_rest rest row = map (at_rest rest) row

-- A number, with 0.0 in place of -0.0.
unfoldable pub positive_zero : {F : Type 0} ⦃fl : Float F⦄ → F → F
positive_zero ⦃fl⦄ x = if fl.le x (fl.lit 0 1) && fl.le (fl.lit 0 1) x then fl.lit 0 1 else x
