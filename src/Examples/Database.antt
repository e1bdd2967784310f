-- ===== src/Examples/Database.antt =====
-- Examples on the SQLite store, over a small database that knows the statements of synapses, decisions and metadata.
use Prim.Native.String.{◌++◌ as append}
use ntl.Base.{
  ℕ, suc, ◌+◌, ◌^◌, number_eq, ◌≤◌, ◌≢◌, ◌≡◌, refl, sym, ap, ◌∙◌, arith, true, false, Bool, ◌%◌,
  Bool-cases, inl, inr, Option, none, some, List, [], ◌∷◌, String, text_eq, ◌==◌, nat_beq,
  nat_beq_iff, leb, if◌then◌else◌, eqb_refl, Result, ok, err,
}
use ntl.Base.Map.{get, insert, get-insert, get-insert_self}
use ntl.Float.Fixed.{Fixed, fixed_float}
use ntl.Sqlite.{
  pos, negsuc, Value, text, blob, integer, Row, SqlError, sql_error, Connection, Conversions,
  i64_max,
}
use ntl.Sqlite.Codes.{strip_prefix}
use ntl.Sqlite.Methods.{upsert_synapse_sql, insert_journal_sql, upsert_meta_sql}
use ntl.Sqlite.Queries.{select_synapses, select_journal, select_meta_sql}
use ntl.Sqlite.RoundTrip.{IsKeyed}
use ntl.Sqlite.Stored.{IsExact, strip_prefix-append}
use ntl.Sqlite.Columns.{positive_zero, row_at_rest}
use ntl.Sqlite.Migrations.{IsVersioned, lt→ltb}
use ntl.Sqlite.Opening.{user_version}
use ntl.Sqlite.Schema.{migrations, initial_schema, signature_failure_window}
use ntl.Sqlite.Entries.{IsPersistent, IsMigrating}

some_inj : {A : Type 0} (a b : A) → some a ≡ some b → a ≡ b
some_inj a b h = cc

leb→le : (a b : ℕ) → leb a b ≡ true → a ≤ b
leb→le a b h = ground arith

pub record Tables : Type 0 where
  pub synapses : List (String × Row Fixed)
  pub journal : List (ℕ × Row Fixed)
  pub rowid : ℕ
  pub has_meta : Bool
  pub meta : List (String × Value Fixed)
  pub version : ℕ

-- A fresh database, which has no table for the metadata yet, and one that has it.
abbrev pub empty_tables : Tables
empty_tables = record {
  synapses = [];
  journal = [];
  rowid = 0;
  has_meta = false;
  meta = [];
  version = 0;
}

abbrev pub made_tables : Tables
made_tables = record empty_tables { has_meta = true }

-- The numbers of the examples are kept but for the sign of zero.
abbrev pub toy_rest : Fixed → Fixed
toy_rest x = positive_zero x

abbrev changed : Tables → Result SqlError ℕ × Tables
changed db = (ok 1, db)

abbrev refused : Tables → Result SqlError ℕ × Tables
refused db = (err sql_error, db)

abbrev put_synapse_row : Row Fixed → Tables → Result SqlError ℕ × Tables
put_synapse_row (text id ∷ row) db =
    changed (record db { synapses = insert id (row_at_rest toy_rest (text id ∷ row)) db.synapses })
put_synapse_row _ db = refused db

abbrev put_meta_row : Row Fixed → Tables → Result SqlError ℕ × Tables
put_meta_row (text key ∷ value ∷ []) db =
    if db.has_meta then changed (record db { meta = insert key value db.meta }) else refused db
put_meta_row _ db = refused db

-- The identifiers run up to the largest integer.
abbrev put_journal_row : Row Fixed → Tables → Result SqlError ℕ × Tables
put_journal_row row db =
    if leb (suc db.rowid) i64_max
    then changed (record db {
      rowid = suc db.rowid;
      journal = (suc db.rowid, row_at_rest toy_rest row) ∷ db.journal;
    })
    else refused db

abbrev run_sql : String → Row Fixed → Tables → Result SqlError ℕ × Tables
run_sql sql args db =
    if sql == upsert_synapse_sql
    then put_synapse_row args db
    else if sql == upsert_meta_sql
    then put_meta_row args db
    else if sql == insert_journal_sql
    then put_journal_row args db
    else refused db

abbrev rows : Option (Row Fixed) → Result SqlError (List (Result SqlError (Row Fixed)))
rows none = ok []
rows (some row) = ok (ok row ∷ [])

abbrev synapse_rows : Row Fixed → Tables → Result SqlError (List (Result SqlError (Row Fixed)))
synapse_rows (text id ∷ []) db = rows (get id db.synapses)
synapse_rows _ db = err sql_error

abbrev with_column : Option (Value Fixed) → Option (Row Fixed)
with_column none = none
with_column (some v) = some (v ∷ [])

abbrev meta_rows : Row Fixed → Tables → Result SqlError (List (Result SqlError (Row Fixed)))
meta_rows (text key ∷ []) db =
    if db.has_meta then rows (with_column (get key db.meta)) else err sql_error
meta_rows _ db = err sql_error

abbrev find_entry : ℕ → List (ℕ × Row Fixed) → Option (Row Fixed)
find_entry n [] = none
find_entry n ((m, row) ∷ rest) =
    let further = find_entry n rest in if nat_beq m n then some (integer (pos m) ∷ row) else further

abbrev journal_rows : Row Fixed → Tables → Result SqlError (List (Result SqlError (Row Fixed)))
journal_rows (integer (pos n) ∷ []) db = rows (find_entry n db.journal)
journal_rows _ db = err sql_error

abbrev ask : String → Row Fixed → Tables → Result SqlError (List (Result SqlError (Row Fixed)))
ask sql args db =
    if sql == select_synapses "id = ?1"
    then synapse_rows args db
    else if sql == select_meta_sql
    then meta_rows args db
    else if sql == select_journal "WHERE id = ?1"
    then journal_rows args db
    else if sql == "PRAGMA user_version"
    then ok (ok (integer (pos db.version) ∷ []) ∷ [])
    else ok []

abbrev set_pragma : String → Value Fixed → Tables → Result SqlError (Unit {0}) × Tables
set_pragma name (integer (pos n)) db =
    (ok tt, if name == "user_version" then record db { version = n % 2 ^ 31 } else db)
set_pragma name v db = (ok tt, db)

-- The first script makes the table for the metadata, if it is not there.
abbrev run_script : String → Tables → Result SqlError (Unit {0}) × Tables
run_script sql db = (ok tt, if sql == initial_schema then record db { has_meta = true } else db)

abbrev pub toy_database : Connection Tables Fixed
toy_database = record {
  execute = run_sql;
  query = ask;
  last_insert_rowid = λ db. pos db.rowid;
  pragma_update = set_pragma;
  busy_timeout = λ ms db. (ok tt, db);
  transaction = λ db. (ok tt, db);
  execute_batch = run_script;
  commit = λ db. (ok tt, db);
  rollback = λ db. db;
}

-- serde_json, on the maps that the examples hold.
abbrev one_type : String → ℕ → Option String
one_type name n = if nat_beq n 1 then some (append "{1:" name) else none

abbrev map_text : List (String × ℕ) → Option String
map_text [] = some "{}"
map_text ((name, n) ∷ []) = one_type name n
map_text (p ∷ q ∷ rest) = none

abbrev map_of : String → Option (List (String × ℕ))
map_of s = elim (strip_prefix s "{1:") [
  | some name ↦ some ((name, 1) ∷ [])
  | none ↦ if s == "{}" then some [] else none
]

abbrev first_of : List ℕ → ℕ
first_of [] = 0
first_of (b ∷ bs) = b

abbrev pub toy_conversions : Conversions Fixed Fixed
toy_conversions = record {
  widen = λ x. x;
  narrow = λ x. x;
  of_integer = λ i. elim i [
    | pos n ↦ fixed_float.of_nat n
    | negsuc n ↦ fixed_float.neg (fixed_float.of_nat (n + 1))
  ];
  map_text = map_text;
  map_of = map_of;
  vec_text = λ xs. elim xs [ [] ↦ some "[]" | x ∷ rest ↦ none ];
  vec_of = λ s. if s == "[]" then some [] else none;
  to_bytes = λ id. id ∷ 0 ∷ 0 ∷ 0 ∷ 0 ∷ 0 ∷ 0 ∷ 0 ∷ 0 ∷ 0 ∷ 0 ∷ 0 ∷ 0 ∷ 0 ∷ 0 ∷ 0 ∷ [];
  from_bytes = first_of;
}

map_of_one : (name : String) → map_of (append "{1:" name) ≡ some ((name, 1) ∷ [])
map_of_one name =
    ap
      (λ found. elim found as (λ f. Option (List (String × ℕ))) [
        | some rest ↦ some ((rest, 1) ∷ [])
        | none ↦ if append "{1:" name == "{}" then some [] else none
      ])
      (strip_prefix-append "{1:" name)

map_of-one_type :
    (name : String) (n : ℕ) (t : String)
    → one_type name n ≡ some t
    → map_of t ≡ some ((name, n) ∷ [])
map_of-one_type name n t h = elim (Bool-cases (nat_beq n 1)) [
  | inl e ↦
      ap map_of (sym (some_inj _ t (rw e at h)))
      ∙ map_of_one name
      ∙ ap (λ k. some ((name, k) ∷ [])) (sym ((nat_beq_iff n 1).0 e))
  | inr e ↦ absurd (ground arith)
]

map_of-map_text : (m : List (String × ℕ)) (t : String) → map_text m ≡ some t → map_of t ≡ some m
map_of-map_text [] t h = ap map_of (sym (some_inj "{}" t h))
map_of-map_text ((name, n) ∷ []) t h = map_of-one_type name n t h
map_of-map_text (p ∷ q ∷ rest) t h = absurd (ground arith)

pub toy-IsExact : IsExact toy_conversions toy_rest
toy-IsExact = record {
  narrow_rest = λ x. refl;
  map_round = map_of-map_text;
  id_length = λ id. refl;
  id_round = λ id h. refl;
}

pub toy-IsKeyed : IsKeyed toy_database toy_conversions toy_rest
toy-IsKeyed = record {
  synapse = λ id row db db' n fits h.
      ap (λ d. rows (get id d.synapses)) (sym (ap (λ z. z.1) h))
      ∙ ap rows (get-insert_self id (row_at_rest toy_rest (text id ∷ row)) db.synapses);
  journal = λ row db db' n fits h. elim (Bool-cases (leb (suc db.rowid) i64_max)) [
    | inl e ↦
        let after = ap (λ z. z.1) (rw e at h) in
        (
          suc db.rowid,
          leb→le (suc db.rowid) i64_max e,
          ap (λ (d : Tables). pos d.rowid) (sym after),
          ap (λ (d : Tables). rows (find_entry (suc db.rowid) d.journal)) (sym after)
              ∙ rw (eqb_refl (suc db.rowid)) refl,
        )
    | inr e ↦ absurd (ground arith)
  ];
}

pub toy-IsVersioned : IsVersioned toy_database
unfolding user_version
toy-IsVersioned = record {
  set_get = λ n db db' u small h.
      ap (user_version toy_database) (sym (ap (λ z. z.1) h))
      ∙ (let m : n % 2 ^ 31 ≡ n = omega arith in rw (m, lt→ltb n (2 ^ 32) (omega arith)) refl);
  commit_get = λ db db' u h. ap (user_version toy_database) (sym (ap (λ z. z.1) h));
}

other_entry :
    (key asked : String) (value : List ℕ) (entries : List (String × Value Fixed))
    → key ≢ asked
    → (if key == asked then some (blob value) else get asked entries) ≡ get asked entries
other_entry key asked value entries ne = elim (Bool-cases (key == asked)) [
  | inl e ↦ absurd (ne ((text_eq.eqb_iff key asked).0 e))
  | inr e ↦ rw e refl
]

-- What a query for an entry answers, by whether the table is there.
abbrev answer : Bool → Option (Value Fixed) → Result SqlError (List (Result SqlError (Row Fixed)))
answer has_meta found = if has_meta then rows (with_column found) else err sql_error

put_meta_row-ok :
    (key : String) (value : List ℕ) (db db' : Tables) (n : ℕ)
    → put_meta_row (text key ∷ blob value ∷ []) db ≡ (ok n, db')
    → (db.has_meta ≡ true)
      × (record db { has_meta = true; meta = insert key (blob value) db.meta } ≡ db')
put_meta_row-ok key value db db' n h = elim (Bool-cases db.has_meta) [
  | inl e ↦ (e, ap (λ z. z.1) (rw e at h))
  | inr e ↦ absurd (ground (arith, e, h))
]

pub toy-IsPersistent : IsPersistent toy_database
toy-IsPersistent = record {
  put_get = λ key value db db' n h.
      let (made, after) = put_meta_row-ok key value db db' n h in
      ap (λ (d : Tables). answer d.has_meta (get key d.meta)) (sym after)
      ∙ ap (answer true) (get-insert_self key (blob value) db.meta);
  put_other = λ key asked value db db' n ne h.
      let (made, after) = put_meta_row-ok key value db db' n h in
      ap (λ (d : Tables). answer d.has_meta (get asked d.meta)) (sym after)
      ∙ ap (answer true)
          (get-insert key asked (blob value) db.meta ∙ other_entry key asked value db.meta ne)
      ∙ ap (λ b. answer b (get asked db.meta)) (sym made);
  checkpoint = λ key db db' u h.
      ap (λ (d : Tables). answer d.has_meta (get key d.meta)) (sym (ap (λ z. z.1) h));
}

pub toy-IsMigrating : IsMigrating toy_database
unfolding migrations initial_schema signature_failure_window
toy-IsMigrating = record {
  transaction = λ key db db' u h.
      ap (λ (d : Tables). answer d.has_meta (get key d.meta)) (sym (ap (λ z. z.1) h));
  commit = λ key db db' u h.
      ap (λ (d : Tables). answer d.has_meta (get key d.meta)) (sym (ap (λ z. z.1) h));
  version = λ n key db db' u h.
      ap (λ (d : Tables). answer d.has_meta (get key d.meta)) (sym (ap (λ z. z.1) h));
  scripts = (kept, (kept_second, tt));
}
  where
    kept :
        (key : String) (db db' : Tables) (u : Unit {0}) (found : List (Result SqlError (Row Fixed)))
        → ◌≡◌ {A = Result SqlError (Unit {0}) × Tables}
            (ok tt, record db { has_meta = true })
            (ok u, db')
        → answer db.has_meta (get key db.meta) ≡ ok found
        → answer db'.has_meta (get key db'.meta) ≡ ok found
    kept key db db' u found h r = elim (Bool-cases db.has_meta) [
      | inl e ↦
          ap (λ (d : Tables). answer d.has_meta (get key d.meta)) (sym (ap (λ z. z.1) h))
          ∙ rw e at r
      | inr e ↦ absurd (ground (arith, rw e at r))
    ]

    kept_second :
        (key : String) (db db' : Tables) (u : Unit {0}) (found : List (Result SqlError (Row Fixed)))
        → ◌≡◌ {A = Result SqlError (Unit {0}) × Tables} (ok tt, db) (ok u, db')
        → answer db.has_meta (get key db.meta) ≡ ok found
        → answer db'.has_meta (get key db'.meta) ≡ ok found
    kept_second key db db' u found h r =
        ap (λ (d : Tables). answer d.has_meta (get key d.meta)) (sym (ap (λ z. z.1) h)) ∙ r
