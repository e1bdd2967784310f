-- ===== src/Runtime/Keys.antt =====
-- The keys of the sessions of runtime/ntl-net/src/runtime.rs while signals are transmitted.
use ntl.Base.{
  ℕ, ◌≡◌, refl, ap, ◌∙◌, Bool, Option, none, some, List, [], ◌∷◌, arith, bytes_eq, number_eq,
  bytes_beq_iff, Bool-cases, Option-cases, inl, inr,
}
use ntl.Base.Map.{get, insert, get-insert}
use ntl.Float.{Float}
use ntl.Delivery.{Receipt}
use ntl.Signal.{NodeId, SignalId, Signal, signal_requires_receipt}
use ntl.Node.{Forward}
use ntl.Runtime.{Runtime, RuntimeState, Session, try_send, offer, event}
use ntl.Runtime.Transmit.{
  transmit, forward_signal, signed_receipt, offer_to, send_receipt_to, send_receipt, plan_or_fresh,
  acknowledge_release, Release, release_signal, release_event,
}
use ntl.Runtime.ReadLoop.{session_key}

module _ {F P : Type 0} where
  abbrev pub key_of : NodeId → List (NodeId × Session F P) → Option (List ℕ)
  key_of n sessions = session_key (get n sessions)

  -- Two tables in which every peer has the same key, or none.
  abbrev pub SameKeys : List (NodeId × Session F P) → List (NodeId × Session F P) → Type 0
  SameKeys a b = (n : NodeId) → key_of n b ≡ key_of n a

  pub trans : (a b c : List (NodeId × Session F P)) → SameKeys a b → SameKeys b c → SameKeys a c
  trans a b c p q n = q n ∙ p n

  pub insert-SameKeys :
      (peer : NodeId) (session session' : Session F P) (a : List (NodeId × Session F P))
      → get peer a ≡ some session
      → session'.public_key ≡ session.public_key
      → SameKeys a (insert peer session' a)
  insert-SameKeys peer session session' a g k n =
      ground (arith, get-insert peer n session' a, bytes_beq_iff peer n)

  try_send-key :
      (signal : Signal F P) (session session' : Session F P)
      → try_send signal session ≡ some session'
      → session'.public_key ≡ session.public_key
  unfolding try_send
  try_send-key signal session session' h = ground arith

  offer-insert :
      (peer : NodeId) (signal : Signal F P) (a b : List (NodeId × Session F P))
      → offer peer signal a ≡ some b
      → (session : Session F P) × (session' : Session F P) × (get peer a ≡ some session)
        × (try_send signal session ≡ some session')
        × (b ≡ insert peer session' a)
  unfolding offer
  offer-insert peer signal a b h = elim (Option-cases (get peer a)) [
    | inl e ↦ absurd (ground arith)
    | inr (session, e) ↦ elim (Option-cases (try_send signal session)) [
      | inl f ↦ absurd (ground arith)
      | inr (session', f) ↦ (session, session', e, f, ground arith)
    ]
  ]

  pub offer-SameKeys :
      (peer : NodeId) (signal : Signal F P) (a b : List (NodeId × Session F P))
      → offer peer signal a ≡ some b
      → SameKeys a b
  offer-SameKeys peer signal a b h n =
      let (session, session', e, f, g) = offer-insert peer signal a b h in
      ap (λ c. key_of n c) g
      ∙ insert-SameKeys peer session session' a e (try_send-key signal session session' f) n

  pub transmit-SameKeys :
      (signal : Signal F P) (fs : List Forward) (a : List (NodeId × Session F P))
      → SameKeys a (transmit signal fs a).sessions
  unfolding transmit
  transmit-SameKeys signal [] a n = refl
  transmit-SameKeys signal (f ∷ fs) a n = elim (Option-cases (offer f.peer signal a)) [
    | inl e ↦ rw (transmit, e) (transmit-SameKeys signal fs a n)
    | inr (b, e) ↦
        rw (transmit, e)
          (trans a b (transmit signal fs b).sessions (offer-SameKeys f.peer signal a b e)
            (transmit-SameKeys signal fs b) n)
  ]

module _ {S R F P : Type 0} ⦃fl : Float F⦄ (rt : Runtime S R F P) where
  -- A step of the runtime after which every peer has the key it had.
  abbrev pub KeepsKeys : RuntimeState S R F P → RuntimeState S R F P → Type 0
  KeepsKeys s s' = SameKeys s.sessions s'.sessions

  forward_signal-KeepsKeys :
      (signal : Signal F P) (fs : List Forward) (now_ns : ℕ) (s : RuntimeState S R F P)
      → KeepsKeys s (forward_signal rt signal fs now_ns s).1
  unfolding forward_signal
  forward_signal-KeepsKeys signal [] now_ns s n = refl
  forward_signal-KeepsKeys signal (f ∷ fs) now_ns s n = transmit-SameKeys _ (f ∷ fs) s.sessions n

  offer_to-KeepsKeys :
      (peer : NodeId) (o : Option (Signal F P)) (s : RuntimeState S R F P)
      → KeepsKeys s (offer_to rt peer (o, s)).1
  offer_to-KeepsKeys peer none s n = refl
  offer_to-KeepsKeys peer (some signal) s n = elim (Option-cases (offer peer signal s.sessions)) [
    | inl e ↦ rw e refl
    | inr (b, e) ↦ rw e (offer-SameKeys peer signal s.sessions b e n)
  ]

  pub send_receipt_to-KeepsKeys :
      (r : Receipt) (origin : NodeId) (now_ns : ℕ) (s : RuntimeState S R F P)
      → KeepsKeys s (send_receipt_to rt r origin now_ns s).1
  unfolding send_receipt_to signed_receipt
  send_receipt_to-KeepsKeys r origin now_ns s =
      offer_to-KeepsKeys origin _ (signed_receipt rt r origin now_ns s).1

  pub send_receipt-KeepsKeys :
      (r : Receipt) (origin via : NodeId) (now_ns : ℕ) (s : RuntimeState S R F P)
      → KeepsKeys s (send_receipt rt r origin via now_ns s)
  unfolding send_receipt signed_receipt
  send_receipt-KeepsKeys r origin via now_ns s =
      offer_to-KeepsKeys _ _ (signed_receipt rt r origin now_ns s).1

  acknowledge_release-KeepsKeys :
      (body : Signal F P) (fs : List Forward) (now_ns : ℕ) (reached : Bool)
      (s : RuntimeState S R F P)
      → KeepsKeys s (acknowledge_release rt body fs now_ns (reached, s))
  unfolding acknowledge_release
  acknowledge_release-KeepsKeys body fs now_ns reached s n =
      elim (Bool-cases (signal_requires_receipt body)) [
        | inl e ↦ rw (acknowledge_release, e) (send_receipt_to-KeepsKeys _ body.origin now_ns s n)
        | inr e ↦ rw (acknowledge_release, e) refl
      ]

  passed_on-KeepsKeys :
      (body : Signal F P) (fs : List Forward) (now_ns : ℕ) (s : RuntimeState S R F P)
      → KeepsKeys s (acknowledge_release rt body fs now_ns (forward_signal rt body fs now_ns s))
  passed_on-KeepsKeys body fs now_ns s =
      let (reached, s₁) = forward_signal rt body fs now_ns s in
      trans s.sessions s₁.sessions _ (forward_signal-KeepsKeys body fs now_ns s)
        (acknowledge_release-KeepsKeys body fs now_ns reached s₁)

  pub release_signal-KeepsKeys :
      (id : SignalId) (body : Option (Signal F P)) (plan : Option (List Forward)) (how : Release)
      (now_ns : ℕ) (s : RuntimeState S R F P)
      → KeepsKeys s (release_signal rt id body plan how now_ns s)
  unfolding release_signal plan_or_fresh
  release_signal-KeepsKeys id none plan how now_ns s n = refl
  release_signal-KeepsKeys id (some body) none how now_ns s n =
      let (fs, s₁) = plan_or_fresh rt none body now_ns (event (release_event rt how body) s) in
      passed_on-KeepsKeys body fs now_ns s₁ n
  release_signal-KeepsKeys id (some body) (some plan) how now_ns s n =
      passed_on-KeepsKeys body plan now_ns (event (release_event rt how body) s) n
