-- ===== src/Sqlite/Rows.antt =====
-- How runtime/ntl-store-sqlite/src/lib.rs writes a record as columns and reads it from a row.
use mathlib.Core.Option.{map as map_option}
use ntl.Base.{
  ℕ, zero, suc, ◌%◌, ◌^◌, Bool, false, not, Option, none, some, List, [], ◌∷◌, String, nat_beq,
  length, if◌then◌else◌, Result, ok, err,
}
use ntl.Signal.{SignalId}
use ntl.Store.{SynapseRecord, PeerRecord, JournalEntry, corrupt, Read}
use ntl.Activation.{ActivationSnapshot}
use ntl.Sqlite.{
  ℤ, pos, negsuc, Value, text, blob, real, integer, null, Row, SqlError, sql_error, Conversions,
  to_i64, from_i64,
}
use ntl.Sqlite.Codes.{
  state_to_str, state_from_str, source_to_str, source_from_str, outcome_to_str, outcome_from_str,
  signal_type_to_str, signal_type_from_str, or_corrupt,
}

-- The `?` operator on plain results.
infixl 5 ◌>>=◌
unfoldable pub ◌>>=◌ : {E A B : Type 0} → Result E A → (A → Result E B) → Result E B
ok a >>= f = f a
err e >>= f = err e

abbrev pub is_zero : ℤ → Bool
is_zero (pos v) = nat_beq v 0
is_zero (negsuc v) = false

-- `max(0) as u32`
abbrev pub to_u32 : ℤ → ℕ
to_u32 (pos v) = v % 2 ^ 32
to_u32 (negsuc v) = 0

module _ {D : Type 0} where
  -- `row.get(n)?`, before the type of the column is looked at.
  abbrev pub column : ℕ → Row D → Result SqlError (Value D)
  column n [] = err sql_error
  column zero (v ∷ vs) = ok v
  column (suc n) (v ∷ vs) = column n vs

  abbrev pub as_text : Value D → Result SqlError String
  as_text (text t) = ok t
  as_text _ = err sql_error

  abbrev pub as_blob : Value D → Result SqlError (List ℕ)
  as_blob (blob b) = ok b
  as_blob _ = err sql_error

  abbrev pub as_integer : Value D → Result SqlError ℤ
  as_integer (integer i) = ok i
  as_integer _ = err sql_error

  abbrev pub or_null :
      {A : Type 0} → (Value D → Result SqlError A) → Value D → Result SqlError (Option A)
  or_null f null = ok none
  or_null f v = f v >>= (λ a. ok (some a))

  abbrev pub from_null : {A : Type 0} → (A → Value D) → Option A → Value D
  from_null f none = null
  from_null f (some a) = f a

module _ {F D : Type 0} (c : Conversions F D) where
  -- An integer is read as a number of `f64` too.
  abbrev pub as_real : Value D → Result SqlError D
  as_real (real x) = ok x
  as_real (integer i) = ok (c.of_integer i)
  as_real _ = err sql_error

  unfoldable pub signal_id_from_blob : List ℕ → Read SignalId
  signal_id_from_blob bytes =
      if nat_beq (length bytes) 16 then ok (c.from_bytes bytes) else err corrupt

  -- The columns of `SYNAPSE_COLUMNS` that are put for a record, given its map as JSON.
  unfoldable pub synapse_params : SynapseRecord F → String → Row D
  unfolding state_to_str to_i64
  synapse_params rec affinity =
      text rec.id
      ∷ blob rec.peer
      ∷ real (c.widen rec.weight)
      ∷ real (c.widen rec.attenuation_factor)
      ∷ text (state_to_str rec.state)
      ∷ text affinity
      ∷ integer (to_i64 rec.established_at_ns)
      ∷ integer (to_i64 rec.last_active_ns)
      ∷ integer (to_i64 rec.signals_transmitted)
      ∷ integer (to_i64 rec.signals_received)
      ∷ integer (to_i64 rec.avg_latency_ns)
      ∷ real (c.widen rec.error_rate)
      ∷ integer (pos rec.signature_failures)
      ∷ integer (to_i64 rec.failure_window_start_ns)
      ∷ []

  unfoldable pub row_to_synapse : Row D → Result SqlError (Read (SynapseRecord F))
  unfolding ◌>>=◌ state_from_str from_i64
  row_to_synapse row = do
    id ← column 0 row >>= as_text
    peer ← column 1 row >>= as_blob
    weight ← column 2 row >>= as_real
    attenuation ← column 3 row >>= as_real
    state ← column 4 row >>= as_text
    affinity ← column 5 row >>= as_text
    established ← column 6 row >>= as_integer
    last_active ← column 7 row >>= as_integer
    transmitted ← column 8 row >>= as_integer
    received ← column 9 row >>= as_integer
    latency ← column 10 row >>= as_integer
    error_rate ← column 11 row >>= as_real
    signature_failures ← column 12 row >>= as_integer
    failure_window_start ← column 13 row >>= as_integer
    ok (
        state_from_str state >>= (λ st. or_corrupt (c.map_of affinity) >>= (λ types. ok (record {
          id = id;
          peer = peer;
          weight = c.narrow weight;
          attenuation_factor = c.narrow attenuation;
          state = st;
          type_affinity = types;
          established_at_ns = from_i64 established;
          last_active_ns = from_i64 last_active;
          signals_transmitted = from_i64 transmitted;
          signals_received = from_i64 received;
          avg_latency_ns = from_i64 latency;
          error_rate = c.narrow error_rate;
          signature_failures = to_u32 signature_failures;
          failure_window_start_ns = from_i64 failure_window_start;
        }))))

  unfoldable pub journal_params : JournalEntry F → Row D
  unfolding signal_type_to_str outcome_to_str to_i64
  journal_params entry =
      blob (c.to_bytes entry.signal)
      ∷ text (signal_type_to_str entry.signal_type)
      ∷ text entry.synapse
      ∷ blob entry.peer
      ∷ real (c.widen entry.score)
      ∷ real (c.widen entry.signal_weight)
      ∷ integer (pos (if entry.explored then 1 else 0))
      ∷ integer (to_i64 entry.decided_at_ns)
      ∷ text (outcome_to_str entry.outcome)
      ∷ from_null (λ t. integer (to_i64 t)) entry.resolved_at_ns
      ∷ []

  unfoldable pub row_to_journal : Row D → Result SqlError (Read (JournalEntry F))
  unfolding ◌>>=◌ signal_id_from_blob signal_type_from_str outcome_from_str from_i64
  row_to_journal row = do
    id ← column 0 row >>= as_integer
    signal ← column 1 row >>= as_blob
    signal_type ← column 2 row >>= as_text
    synapse ← column 3 row >>= as_text
    peer ← column 4 row >>= as_blob
    score ← column 5 row >>= as_real
    signal_weight ← column 6 row >>= as_real
    explored ← column 7 row >>= as_integer
    decided ← column 8 row >>= as_integer
    outcome ← column 9 row >>= as_text
    resolved ← column 10 row >>= or_null as_integer
    ok (
        signal_id_from_blob signal >>= (λ sid. signal_type_from_str signal_type >>= (λ kind.
          outcome_from_str outcome >>= (λ o. ok (record {
            id = some (from_i64 id);
            signal = sid;
            signal_type = kind;
            synapse = synapse;
            peer = peer;
            score = c.narrow score;
            signal_weight = c.narrow signal_weight;
            explored = not (is_zero explored);
            decided_at_ns = from_i64 decided;
            outcome = o;
            resolved_at_ns = map_option from_i64 resolved;
          })))))

  unfoldable pub peer_params : PeerRecord → String → String → Row D
  unfolding source_to_str to_i64
  peer_params rec addresses types =
      blob rec.id
      ∷ text addresses
      ∷ from_null text rec.region
      ∷ text types
      ∷ integer (to_i64 rec.last_seen_ns)
      ∷ text (source_to_str rec.source)
      ∷ []

  unfoldable pub row_to_peer : Row D → Result SqlError (Read PeerRecord)
  unfolding ◌>>=◌ source_from_str from_i64
  row_to_peer row = do
    id ← column 0 row >>= as_blob
    addresses ← column 1 row >>= as_text
    region ← column 2 row >>= or_null as_text
    types ← column 3 row >>= as_text
    last_seen ← column 4 row >>= as_integer
    source ← column 5 row >>= as_text
    ok (
        or_corrupt (c.vec_of addresses) >>= (λ found. or_corrupt (c.vec_of types) >>= (λ kinds.
          source_from_str source >>= (λ from. ok (record {
            id = id;
            addresses = found;
            region = region;
            advertised_types = kinds;
            last_seen_ns = from_i64 last_seen;
            source = from;
          })))))

  unfoldable pub activation_params : ActivationSnapshot F → Row D
  unfolding to_i64
  activation_params snapshot =
      real (c.widen snapshot.potential)
      ∷ real (c.widen snapshot.threshold)
      ∷ integer (to_i64 snapshot.refractory_until_ns)
      ∷ integer (to_i64 snapshot.signals_fired)
      ∷ integer (to_i64 snapshot.taken_at_ns)
      ∷ []

  unfoldable pub row_to_activation : Row D → Result SqlError (ActivationSnapshot F)
  unfolding ◌>>=◌ from_i64
  row_to_activation row = do
    potential ← column 0 row >>= as_real
    threshold ← column 1 row >>= as_real
    refractory ← column 2 row >>= as_integer
    fired ← column 3 row >>= as_integer
    taken ← column 4 row >>= as_integer
    ok (record {
      potential = c.narrow potential;
      threshold = c.narrow threshold;
      refractory_until_ns = from_i64 refractory;
      signals_fired = from_i64 fired;
      taken_at_ns = from_i64 taken;
    })
