-- ===== src/Synapse/Lifecycle.antt =====
-- The lifecycle in runtime/ntl-core/src/synapse.rs as a state machine: its operations are the steps.
use ntl.Base.{
  ℕ, subst, ◌≡◌, refl, sym, ◌∙◌, ap, ◌≢◌, ◌⊎◌, inl, inr, false, arith, String, leb, Bool-cases,
}
use ntl.Float.{Float, ◌≼◌, IsNum}
use ntl.Float.Laws.{IsOrdered, fmin-le_right}
use ntl.Signal.{NodeId}
use ntl.Store.{SynapseState, forming, pruned, SynapseRecord, Outcome}
use ntl.Learning.{LearningConfig, decayed_weight, apply_reward}
use ntl.Synapse.{
  Synapse, SynapseConfig, can_carry, activate, reactivate, update_state, weight_state, strengthen,
  weaken_failure, decay, record_transmission, record_reception, apply_outcome, count_failure,
  apply_signature_failure, apply_decay, to_record, from_record,
}

IsUnproven : SynapseState → Type 0
IsUnproven st = (st ≡ forming) ⊎ (st ≡ pruned)

module _ {F : Type 0} ⦃fl : Float F⦄ where
  -- What may happen to a synapse other than the completion of its handshake.
  pub data Use : Synapse F → Synapse F → Type 0 where
    strengthened : {s : Synapse F} (w f : F) → Use s (strengthen w f s)
    weakened : {s : Synapse F} → Use s (weaken_failure s)
    decayed : {s : Synapse F} → Use s (decay s)
    transmitted :
        {s : Synapse F} (l : ℕ) (t : String) (now_ns : ℕ) → Use s (record_transmission l t now_ns s)
    received : {s : Synapse F} (now_ns : ℕ) → Use s (record_reception now_ns s)
    reactivated : {s : Synapse F} (c : SynapseConfig F) → Use s (reactivate c s)
    learned :
        {s : Synapse F} (o : Outcome) (w : F) (t : String) (spent : F) (c : LearningConfig F)
        → Use s (apply_outcome o w t spent c s).1
    failed :
        {s : Synapse F} (now_ns : ℕ) (c : LearningConfig F)
        → Use s (apply_signature_failure now_ns c s).1
    aged : {s : Synapse F} (now_ns : ℕ) (c : LearningConfig F) → Use s (apply_decay now_ns c s)

  -- A life of a synapse: any number of uses and completed handshakes.
  pub data Life : Synapse F → Synapse F → Type 0 where
    here : {s : Synapse F} → Life s s
    lived : {s t u : Synapse F} → Use s t → Life t u → Life s u
    handshake : {s u : Synapse F} → Life (activate s) u → Life s u

  pub data Uses : Synapse F → Synapse F → Type 0 where
    none_yet : {s : Synapse F} → Uses s s
    then_used : {s t u : Synapse F} → Use s t → Uses t u → Uses s u

  -- Once pruned, always pruned.
  Use-pruned : {s t : Synapse F} → Use s t → s.state ≡ pruned → t.state ≡ pruned
  unfolding strengthen weaken_failure decay record_transmission record_reception reactivate
      apply_outcome apply_signature_failure apply_decay update_state
  Use-pruned (strengthened w f) e = rw e refl
  Use-pruned weakened e = rw e refl
  Use-pruned decayed e = rw e refl
  Use-pruned (transmitted l t now_ns) e = e
  Use-pruned (received now_ns) e = e
  Use-pruned (reactivated c) e = rw e refl
  Use-pruned (learned o w t spent c) e = rw e refl
  Use-pruned {s} (failed now_ns c) e =
      elim (Bool-cases (leb c.signature_failure_prune_threshold (count_failure now_ns c s).0)) [
        | inl f ↦ rw f refl
        | inr f ↦ rw (f, e) refl
      ]
  Use-pruned (aged now_ns c) e = rw e refl

  activate-pruned : (s : Synapse F) → s.state ≡ pruned → (activate s).state ≡ pruned
  unfolding activate
  activate-pruned s e = rw e refl

  -- A pruned synapse stays pruned, and is not able to carry a signal, through any sequence of its
  -- operations, completed handshakes included.
  pub Life-pruned :
      {s t : Synapse F}
      → Life s t
      → s.state ≡ pruned
      → (t.state ≡ pruned) × (can_carry t.state ≡ false)
  unfolding can_carry
  Life-pruned here e = (e, rw e refl)
  Life-pruned (lived u l) e = Life-pruned l (Use-pruned u e)
  Life-pruned {s} (handshake l) e = Life-pruned l (activate-pruned s e)

  Use-forming : {s t : Synapse F} → Use s t → s.state ≡ forming → IsUnproven t.state
  unfolding strengthen weaken_failure decay record_transmission record_reception reactivate
      apply_outcome apply_signature_failure apply_decay update_state IsUnproven
  Use-forming (strengthened w f) e = rw e (inl refl)
  Use-forming weakened e = rw e (inl refl)
  Use-forming decayed e = rw e (inl refl)
  Use-forming (transmitted l t now_ns) e = inl e
  Use-forming (received now_ns) e = inl e
  Use-forming (reactivated c) e = rw e (inl refl)
  Use-forming (learned o w t spent c) e = rw e (inl refl)
  Use-forming {s} (failed now_ns c) e =
      elim (Bool-cases (leb c.signature_failure_prune_threshold (count_failure now_ns c s).0)) [
        | inl f ↦ rw f (inr refl)
        | inr f ↦ rw (f, e) (inl refl)
      ]
  Use-forming (aged now_ns c) e = rw e (inl refl)

  Use-IsUnproven : {s t : Synapse F} → Use s t → IsUnproven s.state → IsUnproven t.state
  unfolding IsUnproven
  Use-IsUnproven u (inl e) = Use-forming u e
  Use-IsUnproven u (inr e) = inr (Use-pruned u e)

  Uses-IsUnproven : {s t : Synapse F} → Uses s t → IsUnproven s.state → IsUnproven t.state
  Uses-IsUnproven none_yet e = e
  Uses-IsUnproven (then_used u us) e = Uses-IsUnproven us (Use-IsUnproven u e)

  -- Only a completed handshake makes a forming synapse able to carry a signal: no sequence of the other
  -- operations does, whatever weights they leave.
  pub Uses-forming : {s t : Synapse F} → Uses s t → s.state ≡ forming → can_carry t.state ≡ false
  unfolding can_carry IsUnproven
  Uses-forming us e = elim (Uses-IsUnproven us (inl e)) [ inl f ↦ rw f refl | inr f ↦ rw f refl ]

  -- In a state that the weight decides, an update of the state leaves a synapse able to carry a signal
  -- exactly when its weight has reached the dormancy threshold. The thresholds are in order.
  pub update_state-can_carry :
      IsOrdered F
      → (s : Synapse F) → s.state ≢ pruned
      → s.state ≢ forming
      → s.dormancy_threshold ≼ s.active_threshold
      → can_carry (update_state s).state ≡ fl.le s.dormancy_threshold s.weight
  unfolding can_carry update_state weight_state
  update_state-can_carry laws s p q h =
      ground (arith, laws.le_trans s.dormancy_threshold s.active_threshold s.weight h)

  update_state-kept :
      (s : Synapse F)
      → ((update_state s).weight ≡ s.weight) × ((update_state s).last_active_ns ≡ s.last_active_ns)
  unfolding update_state
  update_state-kept s = ground arith

  -- Learning never takes a synapse above its own maximum, whatever the bounds of the learning
  -- configuration; nor does a reward for a transmission. The maximum is a number.
  pub weight-le_max :
      IsOrdered F
      → (s : Synapse F) → IsNum s.max_weight
      → ((w f : F) → (strengthen w f s).weight ≼ s.max_weight)
        × ((o : Outcome) (w : F) (t : String) (spent : F) (c : LearningConfig F)
            → (apply_outcome o w t spent c s).1.weight ≼ s.max_weight)
  unfolding strengthen apply_outcome
  weight-le_max laws s n = (
    (λ w f.
        subst (λ v. v ≼ s.max_weight) (sym (update_state-kept _).0)
          (fmin-le_right laws (fl.add s.weight (fl.mul w f)) s.max_weight n)),
    λ o w t spent c.
        subst (λ v. v ≼ s.max_weight) (sym (update_state-kept _).0)
          (fmin-le_right laws (apply_reward s.weight o w spent c).after s.max_weight n),
  )

  -- A sweep does not move the time that decay is reckoned from, so that a second sweep decays the
  -- decayed weight over the whole time again.
  pub apply_decay-apply_decay :
      (s : Synapse F) (first second : ℕ) (c : LearningConfig F)
      → (apply_decay second c (apply_decay first c s)).weight
        ≡ decayed_weight
            (decayed_weight s.weight s.last_active_ns first c)
            s.last_active_ns
            second
            c
  unfolding apply_decay
  apply_decay-apply_decay s first second c =
      let swept = record s { weight = decayed_weight s.weight s.last_active_ns first c } in
      let (w, l) = update_state-kept swept in
      (update_state-kept _).0
      ∙ ap (λ v. decayed_weight v (update_state swept).last_active_ns second c) w
      ∙ ap (λ v. decayed_weight swept.weight v second c) l

module _ {F : Type 0} where
  -- What is stored of a synapse survives a restart: loading a record and storing the synapse again
  -- gives the record back, whatever the local node and the configuration.
  pub to_record-from_record :
      (rec : SynapseRecord F) (local_node : NodeId) (c : SynapseConfig F)
      → to_record (from_record rec local_node c) ≡ rec
  unfolding to_record from_record
  to_record-from_record rec local_node c = refl
