-- ===== src/Conformance/Journal.antt =====
-- The checks of runtime/ntl-core/src/store/conformance.rs on the journal, influence, metadata and history.
use ntl.Base.{
  ℕ, ◌*◌, Bool, true, false, not, Option, some, List, [], ◌∷◌, String, bytes_eq, number_eq, ◌==◌,
  leb, ltb, all, any, if◌then◌else◌, Result, err,
}
use ntl.Float.{Float}
use ntl.Signal.{SignalId, data_signal, heartbeat}
use ntl.Store.{NodeStore, delivered, rejected, is_resolved, JournalEntry, unsupported, Read}
use ntl.Node.Health.{is_delivered}
use ntl.Node.Monad.{Act, ◌>>=◌, ◌>>◌}
use ntl.Conformance.{
  sec, node, signal_id, decision, same_float, near, same_option, expect, expect_read, present,
  assert,
}
use ntl.Conformance.Records.{is_none}

abbrev pub same_id : Option ℕ → Option ℕ → Bool
same_id a b = same_option (λ x y. x == y) a b

abbrev pub is_unsupported : {A : Type 0} → Read A → Bool
is_unsupported (err unsupported) = true
is_unsupported _ = false

abbrev pub same_bytes : Option (List ℕ) → List ℕ → Bool
same_bytes found bytes = same_option (λ x y. x == y) found (some bytes)

-- The bytes of "first" and of "second".
abbrev pub first_value : List ℕ
first_value = 102 ∷ 105 ∷ 114 ∷ 115 ∷ 116 ∷ []

abbrev pub second_value : List ℕ
second_value = 115 ∷ 101 ∷ 99 ∷ 111 ∷ 110 ∷ 100 ∷ []

-- The bytes of "signal body".
abbrev pub body : List ℕ
body = 115 ∷ 105 ∷ 103 ∷ 110 ∷ 97 ∷ 108 ∷ 32 ∷ 98 ∷ 111 ∷ 100 ∷ 121 ∷ []

module _ {S F : Type 0} ⦃fl : Float F⦄ (store : NodeStore S F) (from_parts : ℕ → ℕ → SignalId) where
  unfoldable pub journal_roundtrip : Act S String (Unit {0})
  unfolding expect expect_read present assert is_resolved is_delivered
  journal_roundtrip =
      let signal = signal_id from_parts 104 in
      let entry : JournalEntry F = decision signal 40 (10 * sec) in
      do
        id ← expect "append" (store.append_decision entry)
        found ← expect_read "pending lookup" (store.pending_decision_for signal (node 40))
        waiting ← present "a pending decision must be findable by signal and peer" found
        assert (same_id waiting.id (some id)) "the assigned id must be returned"
        assert (not (is_resolved waiting.outcome)) "pending"
        assert (same_float waiting.score entry.score) "score must round-trip"
        assert (same_float waiting.signal_weight entry.signal_weight)
            "the carried signal's weight must round-trip"
        reply ← expect "resolve" (store.resolve_decision id delivered (11 * sec))
        resolved ← present "resolving a known id must return the entry" reply
        assert (is_delivered resolved.outcome) "delivered"
        assert (same_id resolved.resolved_at_ns (some (11 * sec))) "resolved at"
        left ← expect_read "pending lookup" (store.pending_decision_for signal (node 40))
        assert (is_none left) "a resolved decision must no longer be pending"
        recent ← expect_read "recent" (store.recent_decisions (some data_signal) 10)
        assert (any (λ e. same_id e.id (some id)) recent)
            "a resolved Data decision must appear in recent decisions for Data"
        others ← expect_read "recent" (store.recent_decisions (some heartbeat) 10)
        assert (all (λ e. not (same_id e.id (some id))) others)
            "the signal-type filter must exclude other types"
        unknown ←
            expect "resolving an unknown id must not error"
              (store.resolve_decision 18446744073709551615 delivered (12 * sec))
        assert (is_none unknown) "an unknown journal id must yield None, not an error"

  unfoldable pub journal_resolution_is_idempotent : Act S String (Unit {0})
  unfolding expect present assert is_delivered
  journal_resolution_is_idempotent =
      let signal = signal_id from_parts 105 in
      do
        id ← expect "append" (store.append_decision (decision signal 41 (20 * sec)))
        first ← expect "first resolve" (store.resolve_decision id delivered (21 * sec))
        reply ← expect "second resolve" (store.resolve_decision id rejected (22 * sec))
        second ← present "entry still present" reply
        assert (is_delivered second.outcome) "a second receipt must not overwrite the first outcome"
        assert (same_id second.resolved_at_ns (some (21 * sec)))
            "the original resolution timestamp must be preserved"

  unfoldable pub journal_timeout_sweep : Act S String (Unit {0})
  unfolding expect expect_read assert is_resolved
  journal_timeout_sweep =
      let stale = signal_id from_parts 106 in
      let fresh = signal_id from_parts 107 in
      do
        stale_id ← expect "append stale" (store.append_decision (decision stale 42 (30 * sec)))
        expect "append fresh" (store.append_decision (decision fresh 43 (90 * sec)))
        expired ← expect_read "sweep" (store.expired_decisions (60 * sec) 100)
        assert (any (λ e. same_id e.id (some stale_id)) expired)
            "a decision older than the deadline must be reported expired"
        assert (all (λ e. ltb e.decided_at_ns (60 * sec)) expired)
            "a decision newer than the deadline must not be reported expired"
        assert (all (λ e. not (is_resolved e.outcome)) expired)
            "already-resolved decisions must never be reported expired"
        trimmed ← expect "trim" (store.trim_journal (60 * sec))
        assert (leb 1 trimmed) "trim must remove entries older than the cutoff"

  unfoldable pub influence_accumulates_within_window : Act S String (Unit {0})
  unfolding expect expect_read assert
  influence_accumulates_within_window =
      let attacker = node 50 in
      let bystander = node 51 in
      let start = 100 * sec in
      do
        first ← expect "record" (store.record_influence attacker (fl.lit 10 100) (110 * sec) start)
        assert (near first (fl.lit 10 100) (fl.lit 1 100000))
            "the first record must report its own magnitude"
        second ← expect "record" (store.record_influence attacker (fl.lit 15 100) (120 * sec) start)
        assert (near second (fl.lit 25 100) (fl.lit 1 100000))
            "influence must accumulate within the window"
        other ← expect "record" (store.record_influence bystander (fl.lit 5 100) (120 * sec) start)
        assert (near other (fl.lit 5 100) (fl.lit 1 100000))
            "influence must be accounted per identity"
        narrowed ← expect_read "influence since" (store.influence_since attacker (115 * sec))
        assert (near narrowed (fl.lit 15 100) (fl.lit 1 100000))
            "records before the window start must be excluded"
        purged ← expect "purge" (store.purge_influence (200 * sec))
        assert (leb 3 purged) "purge must reclaim old influence records"

  unfoldable pub meta_roundtrip : Act S String (Unit {0})
  unfolding expect expect_read assert
  meta_roundtrip = do
    absent ← expect_read "get" (store.get_meta "absent-key")
    assert (is_none absent) "an unset key must read back as None"
    expect "put" (store.put_meta "node-id" first_value)
    found ← expect_read "get" (store.get_meta "node-id")
    assert (same_bytes found first_value) "put_meta must keep the value"
    expect "put" (store.put_meta "node-id" second_value)
    again ← expect_read "get" (store.get_meta "node-id")
    assert (same_bytes again second_value) "put_meta must overwrite"

  abbrev pub history_kept : SignalId → Read (Unit {0}) → Act S String (Unit {0})
  history_kept id result = do
    expect_read "a history-enabled backend must accept writes" (λ s. result)
    found ← expect_read "get" (store.get_signal_history id)
    assert (same_bytes found body) "a retained body must read back unchanged"

  abbrev pub history_refused : SignalId → Read (Unit {0}) → Act S String (Unit {0})
  history_refused id result = do
    assert (is_unsupported result) "a backend without history must return Unsupported"
    (λ s.
        assert (is_unsupported (store.get_signal_history id s))
          "reads must refuse consistently with writes" s)

  abbrev pub after_put : SignalId → Read (Unit {0}) × S → Result String (Unit {0}) × S
  after_put id (result, s) =
      (if store.signal_history_enabled s then history_kept id result else history_refused id result)
        s

  unfoldable pub signal_history_is_consistent : Act S String (Unit {0})
  unfolding expect_read assert
  signal_history_is_consistent s =
      let id = signal_id from_parts 108 in after_put id (store.put_signal_history id body 1000 s)
