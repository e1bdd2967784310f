-- ===== src/Store/Memory/Seen.antt =====
-- The deduplication cache of runtime/ntl-core/src/store/memory.rs.
use ntl.Base.{
  ℕ, ◌+◌, ◌*◌, ◌^◌, ◌≤◌, ◌<◌, ◌≡◌, ◌≢◌, true, false, arith, ok, number_eq, nat_beq_iff,
  saturating_add, saturating_mul,
}
use ntl.Base.Map.{get-insert, get-insert_self}
use ntl.Signal.{SignalId}
use ntl.Store.Memory.{MemoryStore, check_and_set_seen, has_seen}

module _ {F : Type 0} where
  -- The store after a check.
  abbrev pub checked : SignalId → ℕ → ℕ → MemoryStore F → MemoryStore F
  checked id now_ns ttl_secs st = (check_and_set_seen id now_ns ttl_secs st).1

  -- A signal that has not been seen is answered as new, and opens a window as long as the time to live.
  -- A check in the window reports a duplicate and leaves the store as it is, so that it does not extend
  -- the window; a check from its end on answers as new again. The window ends before 2^64.
  pub check_and_set_seen_window :
      (id : SignalId) (first later ttl : ℕ) (st : MemoryStore F)
      → has_seen id first st ≡ ok false
      → first + ttl * 1000000000 < 2 ^ 64
      → ((check_and_set_seen id first ttl st).0 ≡ ok false)
        × (later < first + ttl * 1000000000
            → ((check_and_set_seen id later ttl (checked id first ttl st)).0 ≡ ok true)
              × (checked id later ttl (checked id first ttl st) ≡ checked id first ttl st))
        × (first + ttl * 1000000000 ≤ later
            → (check_and_set_seen id later ttl (checked id first ttl st)).0 ≡ ok false)
  unfolding check_and_set_seen has_seen
  check_and_set_seen_window id first later ttl st h b =
      ground
        (arith, get-insert_self id (saturating_add first (saturating_mul ttl 1000000000)) st.seen)

  -- What a check does to one signal does not touch another: whether another has been seen is the same
  -- before and after.
  pub check_and_set_seen_other :
      (id other : SignalId) (now_ns ttl at : ℕ) (st : MemoryStore F)
      → id ≢ other
      → has_seen other at (checked id now_ns ttl st) ≡ has_seen other at st
  unfolding check_and_set_seen has_seen
  check_and_set_seen_other id other now_ns ttl at st h = ground (
    arith,
    get-insert id other (saturating_add now_ns (saturating_mul ttl 1000000000)) st.seen,
    nat_beq_iff id other,
  )
