-- ===== src/Conformance/Suite.antt =====
-- `run_all` of runtime/ntl-core/src/store/conformance.rs.
use ntl.Base.{ℕ, String}
use ntl.Float.{Float}
use ntl.Signal.{SignalId}
use ntl.Store.{NodeStore}
use ntl.Node.Monad.{Act, ◌>>◌}
use ntl.Conformance.Records.{
  migrate_is_idempotent, synapse_roundtrip, synapse_listing_is_ordered_and_filtered, peer_roundtrip,
  dedup_is_check_and_set, dedup_entries_expire, activation_roundtrip,
}
use ntl.Conformance.Journal.{
  journal_roundtrip, journal_resolution_is_idempotent, journal_timeout_sweep,
  influence_accumulates_within_window, meta_roundtrip, signal_history_is_consistent,
}

module _ {S F : Type 0} ⦃fl : Float F⦄ (store : NodeStore S F) (from_parts : ℕ → ℕ → SignalId) where
  unfoldable pub run_all : Act S String (Unit {0})
  unfolding migrate_is_idempotent synapse_roundtrip synapse_listing_is_ordered_and_filtered
      peer_roundtrip dedup_is_check_and_set dedup_entries_expire activation_roundtrip
      journal_roundtrip journal_resolution_is_idempotent journal_timeout_sweep
      influence_accumulates_within_window meta_roundtrip signal_history_is_consistent
  run_all = do
    migrate_is_idempotent store from_parts
    synapse_roundtrip store from_parts
    synapse_listing_is_ordered_and_filtered store from_parts
    peer_roundtrip store from_parts
    dedup_is_check_and_set store from_parts
    dedup_entries_expire store from_parts
    activation_roundtrip store from_parts
    journal_roundtrip store from_parts
    journal_resolution_is_idempotent store from_parts
    journal_timeout_sweep store from_parts
    influence_accumulates_within_window store from_parts
    meta_roundtrip store from_parts
    signal_history_is_consistent store from_parts
