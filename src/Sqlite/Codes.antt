-- ===== src/Sqlite/Codes.antt =====
-- How runtime/ntl-store-sqlite/src/lib.rs writes the values of an enum as text and reads them back.
use Prim.Native.String.{◌++◌ as append, len, slice}
use package.text.Mathlib.Text.{starts_with}
use ntl.Base.{Option, none, some, String, text_eq, ◌==◌, if◌then◌else◌, ok, err}
use ntl.Signal.{
  SignalType, data_signal, query, event, command, heartbeat, discovery, receipt_signal, custom,
}
use ntl.Store.{
  SynapseState, forming, active, weakening, dormant, pruned, Outcome, pending, delivered, rejected,
  timed_out, transport_failure, signature_failure, PeerSource, configured, bootstrap, discovered,
  observed, corrupt, Read,
}

unfoldable pub state_to_str : SynapseState → String
state_to_str forming = "forming"
state_to_str active = "active"
state_to_str weakening = "weakening"
state_to_str dormant = "dormant"
state_to_str pruned = "pruned"

unfoldable pub state_from_str : String → Read SynapseState
state_from_str s =
    if s == "forming"
    then ok forming
    else if s == "active"
    then ok active
    else if s == "weakening"
    then ok weakening
    else if s == "dormant"
    then ok dormant
    else if s == "pruned"
    then ok pruned
    else err corrupt

unfoldable pub source_to_str : PeerSource → String
source_to_str configured = "configured"
source_to_str bootstrap = "bootstrap"
source_to_str discovered = "discovered"
source_to_str observed = "observed"

unfoldable pub source_from_str : String → Read PeerSource
source_from_str s =
    if s == "configured"
    then ok configured
    else if s == "bootstrap"
    then ok bootstrap
    else if s == "discovered"
    then ok discovered
    else if s == "observed"
    then ok observed
    else err corrupt

unfoldable pub outcome_to_str : Outcome → String
outcome_to_str pending = "pending"
outcome_to_str delivered = "delivered"
outcome_to_str rejected = "rejected"
outcome_to_str timed_out = "timed_out"
outcome_to_str transport_failure = "transport_failure"
outcome_to_str signature_failure = "signature_failure"

unfoldable pub outcome_from_str : String → Read Outcome
outcome_from_str s =
    if s == "pending"
    then ok pending
    else if s == "delivered"
    then ok delivered
    else if s == "rejected"
    then ok rejected
    else if s == "timed_out"
    then ok timed_out
    else if s == "transport_failure"
    then ok transport_failure
    else if s == "signature_failure"
    then ok signature_failure
    else err corrupt

unfoldable pub signal_type_to_str : SignalType → String
signal_type_to_str (custom name) = append "custom:" name
signal_type_to_str data_signal = "Data"
signal_type_to_str query = "Query"
signal_type_to_str event = "Event"
signal_type_to_str command = "Command"
signal_type_to_str heartbeat = "Heartbeat"
signal_type_to_str discovery = "Discovery"
signal_type_to_str receipt_signal = "Receipt"

-- `str::strip_prefix`
abbrev pub strip_prefix : String → String → Option String
strip_prefix s prefix = if starts_with s prefix then some (slice s (len prefix) (len s)) else none

abbrev pub plain_type : String → Read SignalType
plain_type s =
    if s == "Data"
    then ok data_signal
    else if s == "Query"
    then ok query
    else if s == "Event"
    then ok event
    else if s == "Command"
    then ok command
    else if s == "Heartbeat"
    then ok heartbeat
    else if s == "Discovery"
    then ok discovery
    else if s == "Receipt"
    then ok receipt_signal
    else err corrupt

unfoldable pub signal_type_from_str : String → Read SignalType
signal_type_from_str s = elim (strip_prefix s "custom:") [
  | some name ↦ ok (custom name)
  | none ↦ plain_type s
]

abbrev pub or_corrupt : {A : Type 0} → Option A → Read A
or_corrupt none = err corrupt
or_corrupt (some a) = ok a
