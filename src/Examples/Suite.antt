-- ===== src/Examples/Suite.antt =====
-- The conformance suite, run on the reference store. The numbers are thousandths, and a tolerance is rounded up to one.
use ntl.Base.{◌+◌, ◌-◌, ◌*◌, ◌/◌, ◌≡◌, refl, true, none, ok}
use ntl.Float.{Float}
use ntl.Float.Fixed.{Fixed, val, fixed_float}
use ntl.Store.{NodeStore}
use ntl.Node.Monad.{◌>>=◌}
use ntl.Base.Sort.{sort_by}
use ntl.Store.Memory.Queries.{list_peers, count_peers, recent_decisions}
use ntl.Store.Memory.{
  MemoryStore, new, with_history, put_synapse, get_synapse, synapse_for_peer, delete_synapse,
  list_synapses, put_peer, get_peer, check_and_set_seen, has_seen, purge_expired_seen,
  load_activation, save_activation, append_decision, resolve_decision, resolve_in,
  pending_decision_for, expired_decisions, trim_journal, record_influence, influence_since,
  purge_influence, put_meta, get_meta, put_signal_history, get_signal_history,
}
use ntl.Store.Memory.Interface.{memory_store}
use ntl.Learning.{sum_from}
use ntl.Conformance.Suite.{run_all}
use ntl.Conformance.Broken.{IsBroken, run_all-IsBroken}

abbrev rounded_up : Float Fixed
rounded_up = record fixed_float { lit = λ n d. val ((1000 * n + d - 1) / d) 0; epsilon = val 1 0 }

abbrev reference : NodeStore (MemoryStore Fixed) Fixed
reference = memory_store ⦃fl = rounded_up⦄ (λ a b. true)

reference_passes : (run_all ⦃fl = rounded_up⦄ reference (λ ms r. ms) new).0 ≡ ok tt
unfolding run_all new ◌>>=◌ memory_store put_synapse get_synapse synapse_for_peer delete_synapse
    list_synapses sort_by put_peer get_peer list_peers count_peers check_and_set_seen has_seen
    purge_expired_seen load_activation save_activation append_decision resolve_decision resolve_in
    pending_decision_for expired_decisions recent_decisions trim_journal record_influence
    influence_since purge_influence put_meta get_meta put_signal_history get_signal_history sum_from
reference_passes = refl

reference_passes_with_history :
    (run_all ⦃fl = rounded_up⦄ reference (λ ms r. ms) with_history).0 ≡ ok tt
unfolding run_all with_history ◌>>=◌ memory_store put_synapse get_synapse synapse_for_peer
    delete_synapse list_synapses sort_by put_peer get_peer list_peers count_peers check_and_set_seen
    has_seen purge_expired_seen load_activation save_activation append_decision resolve_decision
    resolve_in pending_decision_for expired_decisions recent_decisions trim_journal record_influence
    influence_since purge_influence put_meta get_meta put_signal_history get_signal_history sum_from
reference_passes_with_history = refl

-- A store that does not find what `put_meta` has written.
abbrev forgetful : NodeStore (MemoryStore Fixed) Fixed
forgetful = record reference { get_meta = λ key s. ok none }

run_all-IsBroken_example : ¬ (run_all ⦃fl = rounded_up⦄ forgetful (λ ms r. ms) new ≡ (ok tt, new))
run_all-IsBroken_example =
    run_all-IsBroken ⦃fl = rounded_up⦄ forgetful (λ ms r. ms) (IsBroken.loses_meta (λ key s. refl))
      new new
