-- ===== src/Store/Memory/Queries.antt =====
-- The listings of peers and of recent decisions in runtime/ntl-core/src/store/memory.rs.
use ntl.Base.{
  ℕ, Bool, true, false, Option, none, some, List, [], ◌∷◌, String, if◌then◌else◌, ltb, leb, text_eq,
  ◌==◌, filter, take, length, ok,
}
use ntl.Base.Map.{values}
use ntl.Base.Sort.{sort_by}
use ntl.Signal.{
  SignalType, data_signal, query, event, command, heartbeat, discovery, receipt_signal, custom,
}
use ntl.Store.{
  PeerSource, configured, bootstrap, discovered, observed, PeerRecord, JournalEntry, Read,
}
use ntl.Store.Memory.{MemoryStore}

-- `Ord` on byte vectors.
abbrev pub bytes_leb : List ℕ → List ℕ → Bool
bytes_leb [] ys = true
bytes_leb (x ∷ xs) [] = false
bytes_leb (x ∷ xs) (y ∷ ys) =
    let rest = bytes_leb xs ys in if ltb x y then true else if ltb y x then false else rest

abbrev pub source_beq : PeerSource → PeerSource → Bool
source_beq configured configured = true
source_beq bootstrap bootstrap = true
source_beq discovered discovered = true
source_beq observed observed = true
source_beq s t = false

abbrev pub type_beq : SignalType → SignalType → Bool
type_beq data_signal data_signal = true
type_beq query query = true
type_beq event event = true
type_beq command command = true
type_beq heartbeat heartbeat = true
type_beq discovery discovery = true
type_beq receipt_signal receipt_signal = true
type_beq (custom a) (custom b) = a == b
type_beq s t = false

abbrev pub in_region : Option String → PeerRecord → Bool
in_region none p = true
in_region (some want) p = elim p.region [ none ↦ false | some r ↦ r == want ]

-- The peer seen last comes first; then the identifier decides.
abbrev pub peer_before : PeerRecord → PeerRecord → Bool
peer_before a b =
    if ltb b.last_seen_ns a.last_seen_ns
    then true
    else if ltb a.last_seen_ns b.last_seen_ns
    then false
    else bytes_leb a.id b.id

module _ {F : Type 0} where
  unfoldable pub list_peers : Option String → ℕ → MemoryStore F → Read (List PeerRecord)
  unfolding sort_by
  list_peers region limit st =
      ok (take limit (sort_by peer_before (filter (in_region region) (values st.peers))))

  unfoldable pub count_peers : PeerSource → MemoryStore F → Read ℕ
  count_peers source st = ok (length (filter (λ p. source_beq p.source source) (values st.peers)))

  abbrev pub of_type : Option SignalType → JournalEntry F → Bool
  of_type none e = true
  of_type (some want) e = type_beq e.signal_type want

  abbrev pub decided_later : JournalEntry F → JournalEntry F → Bool
  decided_later a b = leb b.decided_at_ns a.decided_at_ns

  unfoldable pub recent_decisions :
      Option SignalType → ℕ → MemoryStore F → Read (List (JournalEntry F))
  unfolding sort_by
  recent_decisions signal_type limit st =
      ok (take limit (sort_by decided_later (filter (of_type signal_type) st.journal)))
