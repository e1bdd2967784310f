-- ===== src/Sqlite/RoundTrip.antt =====
-- What runtime/ntl-store-sqlite/src/lib.rs reads back of what it has written.
use ntl.Base.{
  ℕ, ◌^◌, ◌<◌, ◌≤◌, ◌≡◌, refl, sym, ap, subst, ◌∙◌, arith, Option, none, some, [], ◌∷◌, String,
  Result, ok, err,
}
use ntl.Float.{Float}
use ntl.Store.{SynapseRecord, JournalId, JournalEntry}
use ntl.Node.Monad.{same_answer}
use ntl.Sqlite.{pos, text, integer, Row, SqlError, Connection, Conversions, i64_max, from_i64}
use ntl.Sqlite.Rows.{synapse_params, journal_params, ◌>>=◌}
use ntl.Sqlite.Columns.{synapse_types, journal_types, FitsAll, row_at_rest}
use ntl.Sqlite.Replies.{optional}
use ntl.Sqlite.Methods.{
  upsert_synapse_sql, insert_journal_sql, put_synapse, append_decision, put_as, appended,
}
use ntl.Sqlite.Queries.{select_synapses, select_journal, get_synapse, journal_entry}
use ntl.Sqlite.Stored.{
  IsExact, capped, capped_entry, to_i64-small, written-ok, row_to_synapse-params,
  row_to_journal-params, synapse-FitsAll, journal-FitsAll,
}

module _ {C F D : Type 0} ⦃fl : Float F⦄ (cn : Connection C D) (c : Conversions F D)
    (rest : D → D) where
  -- What SQLite promises of the statements, for values of the types of their columns: an upsert leaves the row under
  -- its key, and an inserted row is found by the identifier that the connection reports, which is not negative.
  pub record IsKeyed : Type 0 where
    pub synapse :
        (id : String) (row : Row D) (db db' : C) (n : ℕ)
        → FitsAll synapse_types (text id ∷ row)
        → cn.execute upsert_synapse_sql (text id ∷ row) db ≡ (ok n, db')
        → cn.query (select_synapses "id = ?1") (text id ∷ []) db'
          ≡ ok (ok (row_at_rest rest (text id ∷ row)) ∷ [])
    pub journal :
        (row : Row D) (db db' : C) (n : ℕ)
        → FitsAll journal_types row
        → cn.execute insert_journal_sql row db ≡ (ok n, db')
        → (v : ℕ) × (v ≤ i64_max)
          × (cn.last_insert_rowid db' ≡ pos v)
          × (cn.query (select_journal "WHERE id = ?1") (integer (pos v) ∷ []) db'
              ≡ ok (ok (integer (pos v) ∷ row_at_rest rest row) ∷ []))

  found_synapse :
      (rec : SynapseRecord F) (json : String) (db : C)
      → IsExact c rest
      → c.map_of json ≡ some rec.type_affinity
      → rec.signature_failures < 2 ^ 32
      → cn.query (select_synapses "id = ?1") (text rec.id ∷ []) db
        ≡ ok (ok (row_at_rest rest (synapse_params c rec json)) ∷ [])
      → get_synapse cn c rec.id db ≡ ok (some (capped rec))
  unfolding get_synapse optional ◌>>=◌
  found_synapse rec json db exact m u32 q =
      rw (q, row_to_synapse-params c rest rec json exact m u32) refl

  put_found :
      (rec : SynapseRecord F) (json : Option String) (db db' : C) (u : Unit {0})
      → IsExact c rest
      → IsKeyed
      → rec.signature_failures < 2 ^ 32
      → c.map_text rec.type_affinity ≡ json
      → put_as cn c json (synapse_params c rec) upsert_synapse_sql db ≡ (ok u, db')
      → get_synapse cn c rec.id db' ≡ ok (some (capped rec))
  unfolding synapse_params
  put_found rec none db db' u exact keyed u32 e h = absurd (ground arith)
  put_found rec (some json) db db' u exact keyed u32 e h =
      let (n, p) = written-ok _ db' u h in
      found_synapse rec json db' exact (exact.map_round rec.type_affinity json e) u32
        (keyed.synapse rec.id _ db db' n (synapse-FitsAll c rest rec json u32) p)

  -- A synapse that was put is read back by its identifier: the same record, but for a time or a count that SQLite's
  -- signed integers cannot hold, which comes back as the largest of them, and for -0.0, which comes back as 0.0. The
  -- count of signature failures fits in 32 bits.
  pub get_synapse-put_synapse :
      (rec : SynapseRecord F) (db db' : C) (u : Unit {0})
      → IsExact c rest
      → IsKeyed
      → rec.signature_failures < 2 ^ 32
      → put_synapse cn c rec db ≡ (ok u, db')
      → get_synapse cn c rec.id db' ≡ ok (some (capped rec))
  unfolding put_synapse
  get_synapse-put_synapse rec db db' u exact keyed u32 h =
      put_found rec (c.map_text rec.type_affinity) db db' u exact keyed u32 refl h

  found_entry :
      (entry : JournalEntry F) (v : ℕ) (db : C)
      → IsExact c rest
      → entry.signal < 2 ^ 128
      → v ≤ i64_max
      → cn.query (select_journal "WHERE id = ?1") (integer (pos v) ∷ []) db
        ≡ ok (ok (integer (pos v) ∷ row_at_rest rest (journal_params c entry)) ∷ [])
      → journal_entry cn c v db ≡ ok (some (capped_entry v entry))
  unfolding journal_entry optional ◌>>=◌
  found_entry entry v db exact wide small q =
      rw (to_i64-small v small, q, row_to_journal-params c rest entry v exact wide) refl

  appended-ok :
      (p : Result SqlError ℕ × C) (db' : C) (id : JournalId)
      → appended cn c p ≡ (ok id, db')
      → (n : ℕ) × (p ≡ (ok n, db')) × (from_i64 (cn.last_insert_rowid db') ≡ id)
  appended-ok (ok n, db) db' id h =
      let (a, b) = same_answer _ id db db' h in (n, ap (λ z. (ok n, z)) b, rw (sym b) a)
  appended-ok (err e, db) db' id h = absurd (ground arith)

  -- A decision that was appended is found under the identifier that was returned: the same entry with that
  -- identifier, but for a time that SQLite's signed integers cannot hold, which comes back as the largest of them, and
  -- for -0.0, which comes back as 0.0. The identifier of the signal fits in 128 bits.
  pub journal_entry-append_decision :
      (entry : JournalEntry F) (db db' : C) (id : JournalId)
      → IsExact c rest
      → IsKeyed
      → entry.signal < 2 ^ 128
      → append_decision cn c entry db ≡ (ok id, db')
      → journal_entry cn c id db' ≡ ok (some (capped_entry id entry))
  unfolding append_decision
  journal_entry-append_decision entry db db' id exact keyed wide h =
      let (n, p, e) = appended-ok _ db' id h in
      let (v, small, last, q) = keyed.journal _ db db' n (journal-FitsAll c rest entry) p in
      let same : v ≡ id = sym (ap from_i64 last) ∙ e in
      subst (λ k. journal_entry cn c k db' ≡ ok (some (capped_entry k entry))) same
        (found_entry entry v db' exact wide small q)
