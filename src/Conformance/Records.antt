-- ===== src/Conformance/Records.antt =====
-- The checks of runtime/ntl-core/src/store/conformance.rs on synapses, peers, deduplication and the activation.
use package.text.Mathlib.Text.{starts_with}
use ntl.Base.{
  ℕ, suc, ◌+◌, ◌*◌, Bool, true, false, not, ◌||◌, Option, none, some, List, [], ◌∷◌, String,
  bytes_eq, text_eq, ◌==◌, nat_beq, leb, ltb, length, all, any, filter, if◌then◌else◌,
}
use ntl.Float.{Float}
use ntl.Signal.{SignalId}
use ntl.Activation.{ActivationSnapshot}
use ntl.Store.{
  NodeStore, active, dormant, state_beq, SynapseRecord, any_synapse, PeerRecord, configured,
}
use ntl.Node.Monad.{Act, pure, ◌>>=◌, ◌>>◌}
use ntl.Conformance.{
  sec, node, signal_id, synapse_record, same_synapse, near, same_peer, same_option, same_snapshot,
  expect, expect_read, present, assert,
}

abbrev pub is_none : {A : Type 0} → Option A → Bool
is_none none = true
is_none (some a) = false

module _ {S F : Type 0} ⦃fl : Float F⦄ (store : NodeStore S F) (from_parts : ℕ → ℕ → SignalId) where
  unfoldable pub migrate_is_idempotent : Act S String (Unit {0})
  unfolding expect
  migrate_is_idempotent = do
    expect "first migrate" store.migrate
    expect "second migrate must be a no-op" store.migrate

  unfoldable pub synapse_roundtrip : Act S String (Unit {0})
  unfolding expect expect_read present assert
  synapse_roundtrip =
      let rec = record (synapse_record "syn-roundtrip" 1 (fl.lit 42 100)) {
        type_affinity = ("Query", 11) ∷ [];
      } in
      do
        expect "put" (store.put_synapse rec)
        found ← expect_read "get" (store.get_synapse rec.id)
        fetched ← present "synapse must exist after put" found
        assert (same_synapse fetched rec) "synapse must round-trip unchanged"
        other ← expect_read "by peer" (store.synapse_for_peer rec.peer)
        by_peer ← present "synapse must be reachable by peer" other
        assert (by_peer.id == rec.id) "synapse must be reachable by peer"
        expect "re-put" (store.put_synapse (record rec { weight = fl.lit 99 100 }))
        again ← expect_read "get" (store.get_synapse rec.id)
        refetched ← present "present" again
        assert (near refetched.weight (fl.lit 99 100) fl.epsilon)
            "put must replace an existing record"
        expect "delete" (store.delete_synapse rec.id)
        gone ← expect_read "get" (store.get_synapse rec.id)
        assert (is_none gone) "synapse must be gone after delete"
        expect "deleting an absent synapse must not error" (store.delete_synapse rec.id)

  abbrev pub ordered_record : ℕ → String → SynapseRecord F
  ordered_record i id =
      let r =
        record (synapse_record id (20 + i)
          (fl.add (fl.lit 2 10) (fl.mul (fl.lit 3 10) (fl.of_nat i)))) {
            last_active_ns = 1000 + i * 1000;
          } in
      if nat_beq i 0 then record r { state = dormant } else r

  unfoldable pub put_ordered : ℕ → List String → Act S String (Unit {0})
  unfolding expect
  put_ordered i [] = pure tt
  put_ordered i (id ∷ ids) = do
    expect "put" (store.put_synapse (ordered_record i id))
    put_ordered (suc i) ids

  unfoldable pub delete_all : List String → Act S String (Unit {0})
  unfolding expect
  delete_all [] = pure tt
  delete_all (id ∷ ids) = do expect "cleanup" (store.delete_synapse id); delete_all ids

  -- Each record is at least as heavy as the next: `windows(2)`.
  abbrev pub descending : List (SynapseRecord F) → Bool
  descending [] = true
  descending (a ∷ []) = true
  descending (a ∷ b ∷ rest) =
      let more = descending (b ∷ rest) in if fl.le b.weight a.weight then more else false

  unfoldable pub synapse_listing_is_ordered_and_filtered : Act S String (Unit {0})
  unfolding expect_read assert put_ordered delete_all
  synapse_listing_is_ordered_and_filtered =
      let ids = "ord-low" ∷ "ord-mid" ∷ "ord-high" ∷ [] in
      do
        put_ordered 0 ids
        listed ← expect_read "list all" (store.list_synapses any_synapse)
        assert (nat_beq (length (filter (λ s. starts_with s.id "ord-") listed)) 3)
            "all three records must be listed"
        assert (descending (filter (λ s. starts_with s.id "ord-") listed))
            "listing must be ordered by weight descending"
        live ←
            expect_read "list active"
              (store.list_synapses (record any_synapse { states = active ∷ [] }))
        assert (all (λ s. state_beq s.state active) live)
            "state filter must exclude non-active synapses"
        assert (not (any (λ s. s.id == "ord-low") live)) "the dormant record must be filtered out"
        heavy ←
            expect_read "list by weight"
              (store.list_synapses (record any_synapse { min_weight = some (fl.lit 7 10) }))
        assert (all (λ s. fl.le (fl.lit 7 10) s.weight) heavy) "min_weight filter must be respected"
        idle ←
            expect_read "list idle"
              (store.list_synapses (record any_synapse { last_active_before_ns = some 2000 }))
        assert (all (λ s. ltb s.last_active_ns 2000) idle)
            "last_active_before_ns filter must be respected"
        capped ←
            expect_read "list capped" (store.list_synapses (record any_synapse { limit = some 1 }))
        assert (nat_beq (length capped) 1) "limit must be respected"
        delete_all ids

  abbrev pub test_peer : PeerRecord
  test_peer = record {
    id = node 30;
    addresses = "ntl://10.0.0.1:4433" ∷ "ntl://[::1]:4433" ∷ [];
    region = some "af-south-1";
    advertised_types = "Data" ∷ "Query" ∷ [];
    last_seen_ns = 5000;
    source = configured;
  }

  unfoldable pub peer_roundtrip : Act S String (Unit {0})
  unfolding expect expect_read present assert
  peer_roundtrip = do
    expect "put peer" (store.put_peer test_peer)
    found ← expect_read "get" (store.get_peer (node 30))
    fetched ← present "present" found
    assert (same_peer fetched test_peer) "peer must round-trip unchanged"
    near_ ← expect_read "list by region" (store.list_peers (some "af-south-1") 10)
    assert (any (λ (p : PeerRecord). p.id == node 30) near_)
        "region filter must match the advertised region"
    far ← expect_read "list other region" (store.list_peers (some "eu-west-1") 10)
    assert (all (λ (p : PeerRecord). not (p.id == node 30)) far)
        "region filter must exclude other regions"
    count ← expect_read "count" (store.count_peers configured)
    assert (leb 1 count) "configured peers must be counted"

  unfoldable pub dedup_is_check_and_set : Act S String (Unit {0})
  unfolding expect expect_read assert
  dedup_is_check_and_set =
      let id = signal_id from_parts 101 in
      let now = 100 * sec in
      let other = signal_id from_parts 102 in
      do
        first ← expect "first check" (store.check_and_set_seen id now 300)
        assert (not first) "a signal must be reported unseen the first time"
        second ← expect "second check" (store.check_and_set_seen id (now + 1) 300)
        assert second "a signal must be reported seen the second time"
        seen ← expect_read "has_seen" (store.has_seen id (now + 1))
        assert seen "has_seen must agree with check_and_set_seen"
        unknown ← expect_read "has_seen" (store.has_seen other now)
        assert (not unknown) "has_seen must not report an unrecorded signal as seen"
        inserted ← expect "check" (store.check_and_set_seen other now 300)
        assert (not inserted) "has_seen must not insert"

  unfoldable pub dedup_entries_expire : Act S String (Unit {0})
  unfolding expect expect_read assert
  dedup_entries_expire =
      let id = signal_id from_parts 103 in
      let now = 1000 * sec in
      let after = 1000 * sec + 61 * sec in
      do
        first ← expect "set" (store.check_and_set_seen id now 60)
        assert (not first) "set"
        within ← expect_read "within ttl" (store.has_seen id (now + 30 * sec))
        assert within "entry must still be seen inside its TTL"
        past ← expect_read "past ttl" (store.has_seen id after)
        assert (not past) "entry must expire once its TTL has elapsed"
        reset ← expect "reset" (store.check_and_set_seen id after 60)
        assert (not reset) "an expired entry must behave as absent"
        purged ← expect "purge" (store.purge_expired_seen (after + 1000 * sec))
        assert (leb 1 purged) "purge must reclaim expired entries"

  abbrev pub first_snapshot : ActivationSnapshot F
  first_snapshot = record {
    potential = fl.lit 4 10;
    threshold = fl.lit 5 10;
    refractory_until_ns = 9000;
    signals_fired = 3;
    taken_at_ns = 8000;
  }

  unfoldable pub activation_roundtrip : Act S String (Unit {0})
  unfolding expect expect_read assert
  activation_roundtrip =
      let second = record first_snapshot { potential = fl.lit 9 10; taken_at_ns = 9000 } in
      do
        before ← expect_read "load" (store.load_activation)
        assert (is_none before || not (is_none before))
            "load_activation must not error on an empty store"
        expect "save" (store.save_activation first_snapshot)
        loaded ← expect_read "load" (store.load_activation)
        assert (same_option same_snapshot loaded (some first_snapshot))
            "snapshot must round-trip unchanged"
        expect "save again" (store.save_activation second)
        reloaded ← expect_read "load" (store.load_activation)
        assert (same_option same_snapshot reloaded (some second))
            "saving must replace the previous snapshot, not accumulate"
