-- ===== src/Sqlite/Stored.antt =====
-- What a row of runtime/ntl-store-sqlite/src/lib.rs is read as after it was written and kept.
use Prim.Native.String.{◌++◌ as append}
use package.text.Mathlib.TextEquality.{starts_with_iff}
use package.text.Mathlib.TextLemmas.{prefix-append}
use package.text.Mathlib.TextPositions.{slice-append_right, len-append}
use mathlib.Core.Option.{map as map_option}
use ntl.Base.{
  ℕ, ◌%◌, ◌^◌, ◌<◌, ◌≤◌, ◌≡◌, refl, ap, arith, min, not, if◌then◌else◌, Bool, true, false, Option,
  none, some, List, ◌∷◌, String, length, Result, ok, err,
}
use ntl.Float.{Float}
use ntl.Signal.{
  SignalId, SignalType, data_signal, query, event, command, heartbeat, discovery, receipt_signal,
  custom,
}
use ntl.Store.{
  SynapseState, forming, active, weakening, dormant, pruned, Outcome, pending, delivered, rejected,
  timed_out, transport_failure, signature_failure, SynapseRecord, JournalId, JournalEntry, Read,
}
use ntl.Sqlite.{pos, text, integer, SqlError, Conversions, i64_max, to_i64, from_i64}
use ntl.Sqlite.Codes.{
  state_to_str, state_from_str, outcome_to_str, outcome_from_str, signal_type_to_str,
  signal_type_from_str, strip_prefix, plain_type,
}
use ntl.Sqlite.Rows.{
  or_null, as_integer, from_null, is_zero, synapse_params, row_to_synapse, journal_params,
  row_to_journal, signal_id_from_blob, ◌>>=◌,
}
use ntl.Sqlite.Columns.{
  optional_integer_column, synapse_types, journal_types, IsI64, Fits, FitsAll, at_rest, row_at_rest,
  positive_zero,
}
use ntl.Sqlite.Methods.{written}

-- SQLite's integers are signed: a number of `u64` that does not fit is read back as the largest.
from_i64-to_i64 : (v : ℕ) → from_i64 (to_i64 v) ≡ min v i64_max
unfolding from_i64 to_i64
from_i64-to_i64 v = ground arith

pub to_i64-small : (v : ℕ) → v ≤ i64_max → to_i64 v ≡ pos v
unfolding to_i64
to_i64-small v h = ground arith

state_from_str-state_to_str : (s : SynapseState) → state_from_str (state_to_str s) ≡ ok s
unfolding state_from_str state_to_str
state_from_str-state_to_str forming = refl
state_from_str-state_to_str active = refl
state_from_str-state_to_str weakening = refl
state_from_str-state_to_str dormant = refl
state_from_str-state_to_str pruned = refl

outcome_from_str-outcome_to_str : (o : Outcome) → outcome_from_str (outcome_to_str o) ≡ ok o
unfolding outcome_from_str outcome_to_str
outcome_from_str-outcome_to_str pending = refl
outcome_from_str-outcome_to_str delivered = refl
outcome_from_str-outcome_to_str rejected = refl
outcome_from_str-outcome_to_str timed_out = refl
outcome_from_str-outcome_to_str transport_failure = refl
outcome_from_str-outcome_to_str signature_failure = refl

pub strip_prefix-append :
    (prefix rest : String) → strip_prefix (append prefix rest) prefix ≡ some rest
strip_prefix-append prefix rest =
    rw
      (
        (starts_with_iff (append prefix rest) prefix).1 (prefix-append prefix rest),
        len-append prefix rest,
        slice-append_right prefix rest,
      )
      refl

signal_type_from_str-signal_type_to_str :
    (t : SignalType) → signal_type_from_str (signal_type_to_str t) ≡ ok t
unfolding signal_type_from_str signal_type_to_str
signal_type_from_str-signal_type_to_str data_signal = refl
signal_type_from_str-signal_type_to_str query = refl
signal_type_from_str-signal_type_to_str event = refl
signal_type_from_str-signal_type_to_str command = refl
signal_type_from_str-signal_type_to_str heartbeat = refl
signal_type_from_str-signal_type_to_str discovery = refl
signal_type_from_str-signal_type_to_str receipt_signal = refl
signal_type_from_str-signal_type_to_str (custom name) =
    ap
      (λ found. elim found as (λ f. Read SignalType) [
        | some rest ↦ ok (custom rest)
        | none ↦ plain_type (append "custom:" name)
      ])
      (strip_prefix-append "custom:" name)

to_i64-IsI64 : (v : ℕ) → IsI64 (to_i64 v)
unfolding to_i64
to_i64-IsI64 v = ground arith

explored-le : (b : Bool) → (if b then 1 else 0) ≤ i64_max
explored-le true = omega arith
explored-le false = omega arith

explored_round : (b : Bool) → not (is_zero (pos (if b then 1 else 0))) ≡ b
explored_round true = refl
explored_round false = refl

pub written-ok :
    {C : Type 0} (p : Result SqlError ℕ × C) (db' : C) (u : Unit {0})
    → written p ≡ (ok u, db')
    → (n : ℕ) × (p ≡ (ok n, db'))
written-ok (ok n, db) db' u h = (n, ap (λ z. (ok n, z.1)) h)
written-ok (err e, db) db' u h = absurd (ground arith)

-- The records as they come back: with the largest integer for one that does not fit, and 0.0 for -0.0.
module _ {F : Type 0} ⦃fl : Float F⦄ where
  abbrev pub capped : SynapseRecord F → SynapseRecord F
  capped rec = record rec {
    weight = positive_zero rec.weight;
    attenuation_factor = positive_zero rec.attenuation_factor;
    error_rate = positive_zero rec.error_rate;
    established_at_ns = min rec.established_at_ns i64_max;
    last_active_ns = min rec.last_active_ns i64_max;
    signals_transmitted = min rec.signals_transmitted i64_max;
    signals_received = min rec.signals_received i64_max;
    avg_latency_ns = min rec.avg_latency_ns i64_max;
    failure_window_start_ns = min rec.failure_window_start_ns i64_max;
  }

  abbrev pub capped_entry : JournalId → JournalEntry F → JournalEntry F
  capped_entry id entry = record entry {
    score = positive_zero entry.score;
    signal_weight = positive_zero entry.signal_weight;
    id = some id;
    decided_at_ns = min entry.decided_at_ns i64_max;
    resolved_at_ns = map_option (λ t. min t i64_max) entry.resolved_at_ns;
  }

module _ {F D : Type 0} ⦃fl : Float F⦄ (c : Conversions F D) (rest : D → D) where
  -- What the parameters promise: `f32` fits in `f64`, SQLite keeps a number of `f64` but for the sign of zero, and
  -- serde_json and the ulid crate read back what they write.
  pub record IsExact : Type 0 where
    pub narrow_rest : (x : F) → c.narrow (rest (c.widen x)) ≡ positive_zero x
    pub map_round :
        (m : List (String × ℕ)) (t : String) → c.map_text m ≡ some t → c.map_of t ≡ some m
    pub id_length : (id : SignalId) → length (c.to_bytes id) ≡ 16
    pub id_round : (id : SignalId) → id < 2 ^ 128 → c.from_bytes (c.to_bytes id) ≡ id

  pub row_to_synapse-params :
      (rec : SynapseRecord F) (json : String)
      → IsExact
      → c.map_of json ≡ some rec.type_affinity
      → rec.signature_failures < 2 ^ 32
      → row_to_synapse c (row_at_rest rest (synapse_params c rec json)) ≡ ok (ok (capped rec))
  unfolding row_to_synapse synapse_params ◌>>=◌
  row_to_synapse-params rec json exact h u32 =
      let small : rec.signature_failures % 2 ^ 32 ≡ rec.signature_failures = omega arith in
      simp (state_from_str-state_to_str, h, exact.narrow_rest, from_i64-to_i64, small)

  pub synapse-FitsAll :
      (rec : SynapseRecord F) (json : String)
      → rec.signature_failures < 2 ^ 32
      → FitsAll synapse_types (synapse_params c rec json)
  unfolding synapse_params
  synapse-FitsAll rec json u32 = (
    tt,
    (
      tt,
      (
        tt,
        (
          tt,
          (
            tt,
            (
              tt,
              (
                to_i64-IsI64 rec.established_at_ns,
                (
                  to_i64-IsI64 rec.last_active_ns,
                  (
                    to_i64-IsI64 rec.signals_transmitted,
                    (
                      to_i64-IsI64 rec.signals_received,
                      (
                        to_i64-IsI64 rec.avg_latency_ns,
                        (tt, (omega arith, (to_i64-IsI64 rec.failure_window_start_ns, tt))),
                      ),
                    ),
                  ),
                ),
              ),
            ),
          ),
        ),
      ),
    ),
  )

  nullable-Fits :
      (o : Option ℕ) → Fits {D = D} optional_integer_column (from_null (λ t. integer (to_i64 t)) o)
  nullable-Fits none = tt
  nullable-Fits (some t) = to_i64-IsI64 t

  pub journal-FitsAll : (entry : JournalEntry F) → FitsAll journal_types (journal_params c entry)
  unfolding journal_params
  journal-FitsAll entry = (
    tt,
    (
      tt,
      (
        tt,
        (
          tt,
          (
            tt,
            (
              tt,
              (
                explored-le entry.explored,
                (to_i64-IsI64 entry.decided_at_ns, (tt, (nullable-Fits entry.resolved_at_ns, tt))),
              ),
            ),
          ),
        ),
      ),
    ),
  )

  nullable_round :
      (o : Option ℕ)
      → or_null {D = D} as_integer (at_rest rest (from_null (λ t. integer (to_i64 t)) o))
        ≡ ok (map_option to_i64 o)
  unfolding ◌>>=◌
  nullable_round none = refl
  nullable_round (some t) = refl

  map_round :
      (o : Option ℕ) → map_option from_i64 (map_option to_i64 o) ≡ map_option (λ t. min t i64_max) o
  map_round none = refl
  map_round (some t) = ap some (from_i64-to_i64 t)

  pub row_to_journal-params :
      (entry : JournalEntry F) (v : ℕ)
      → IsExact
      → entry.signal < 2 ^ 128
      → row_to_journal c (integer (pos v) ∷ row_at_rest rest (journal_params c entry))
        ≡ ok (ok (capped_entry v entry))
  unfolding row_to_journal journal_params signal_id_from_blob ◌>>=◌
  row_to_journal-params entry v exact wide =
      rw
        (
          exact.id_length entry.signal,
          nullable_round entry.resolved_at_ns,
          map_round entry.resolved_at_ns,
        )
        (simp (
          signal_type_from_str-signal_type_to_str,
          outcome_from_str-outcome_to_str,
          exact.narrow_rest,
          exact.id_round entry.signal wide,
          from_i64-to_i64,
          explored_round,
        ))
