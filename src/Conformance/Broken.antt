-- ===== src/Conformance/Broken.antt =====
-- Which defects of a store `run_all` of runtime/ntl-core/src/store/conformance.rs finds.
use ntl.Base.{ℕ, ◌≡◌, false, Option, none, some, String, ok, number_eq}
use ntl.Float.{Float}
use ntl.Signal.{SignalId, SignalType}
use ntl.Store.{NodeStore, SynapseFilter, JournalEntry, JournalId, Outcome}
use ntl.Conformance.Refusals.{Refuses, Refuses-first, Refuses-next}
use ntl.Conformance.Suite.{run_all}
use ntl.Conformance.Defects.{
  loses_synapses-Refuses, keeps_deleted-Refuses, ignores_limit-Refuses, admits_duplicates-Refuses,
  never_expires-Refuses, resolves_again-Refuses, ignores_region-Refuses, loses_activation-Refuses,
  ignores_type-Refuses, loses_meta-Refuses,
}

module _ {S F : Type 0} ⦃fl : Float F⦄ (store : NodeStore S F) where
  -- A defect of a store.
  pub data IsBroken : Type 0 where
    loses_synapses : ((id : String) (s : S) → store.get_synapse id s ≡ ok none) → IsBroken
    keeps_deleted : ((id : String) (s : S) → (store.get_synapse id s ≡ ok none) → ⊥) → IsBroken
    ignores_limit :
        ((f : SynapseFilter F) (n : ℕ) (s : S)
          → store.list_synapses (record f { limit = some n }) s
            ≡ store.list_synapses (record f { limit = none }) s)
        → IsBroken
    admits_duplicates :
        ((id : SignalId) (now_ns ttl : ℕ) (s : S)
          → (store.check_and_set_seen id now_ns ttl s).0 ≡ ok false)
        → IsBroken
    never_expires :
        ((id : SignalId) (now_ns then_ns : ℕ) (s : S)
          → store.has_seen id now_ns s ≡ store.has_seen id then_ns s)
        → IsBroken
    resolves_again :
        ((id : JournalId) (o : Outcome) (now_ns : ℕ) (e : JournalEntry F) (s s₁ : S)
          → store.resolve_decision id o now_ns s ≡ (ok (some e), s₁)
          → e.resolved_at_ns ≡ some now_ns)
        → IsBroken
    ignores_region :
        ((r q : Option String) (n : ℕ) (s : S) → store.list_peers r n s ≡ store.list_peers q n s)
        → IsBroken
    loses_activation : ((s : S) → store.load_activation s ≡ ok none) → IsBroken
    ignores_type :
        ((t u : Option SignalType) (n : ℕ) (s : S)
          → store.recent_decisions t n s ≡ store.recent_decisions u n s)
        → IsBroken
    loses_meta : ((key : String) (s : S) → store.get_meta key s ≡ ok none) → IsBroken

module _ {S F : Type 0} ⦃fl : Float F⦄ (store : NodeStore S F) (from_parts : ℕ → ℕ → SignalId) where
  ruleset onward = (Refuses-first, Refuses-next)

  IsBroken-Refuses : IsBroken store → (s : S) → Refuses (run_all store from_parts) s
  unfolding run_all
  IsBroken-Refuses (loses_synapses broken) s =
      search (onward, loses_synapses-Refuses store from_parts broken) depth 40
  IsBroken-Refuses (keeps_deleted broken) s =
      search (onward, keeps_deleted-Refuses store from_parts broken) depth 40
  IsBroken-Refuses (ignores_limit broken) s =
      search (onward, ignores_limit-Refuses store from_parts broken) depth 40
  IsBroken-Refuses (admits_duplicates broken) s =
      search (onward, admits_duplicates-Refuses store from_parts broken) depth 40
  IsBroken-Refuses (never_expires broken) s =
      search (onward, never_expires-Refuses store from_parts broken) depth 40
  IsBroken-Refuses (resolves_again broken) s =
      search (onward, resolves_again-Refuses store from_parts broken) depth 40
  IsBroken-Refuses (ignores_region broken) s =
      search (onward, ignores_region-Refuses store from_parts broken) depth 40
  IsBroken-Refuses (loses_activation broken) s =
      search (onward, loses_activation-Refuses store from_parts broken) depth 40
  IsBroken-Refuses (ignores_type broken) s =
      search (onward, ignores_type-Refuses store from_parts broken) depth 40
  IsBroken-Refuses (loses_meta broken) s =
      search (onward, loses_meta-Refuses store from_parts broken) depth 40

  -- The suite finds each of these defects, from every state: no run of it passes on a store that never finds a
  -- synapse, never reports one as absent, ignores the limit of a listing, the region of a peer or the type of a
  -- decision, always calls a signal fresh, answers has_seen without regard to the time, stamps a decision each time
  -- it is resolved, or never has a snapshot of the gate or an entry of the metadata.
  pub run_all-IsBroken : IsBroken store → (s s₁ : S) → ¬ (run_all store from_parts s ≡ (ok tt, s₁))
  run_all-IsBroken broken s s₁ = λ e. (IsBroken-Refuses broken s).refused tt s₁ e
