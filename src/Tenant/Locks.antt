-- ===== src/Tenant/Locks.antt =====
-- The first lock of insert and delete (crates/skeg-rigging-skeg/src/tenant.rs) against the whole call.
use skeg_rigging.Base.{ℕ, ◌≡◌, refl, sym, ap, ◌∙◌, List, [], ◌∷◌, arith}
use skeg_rigging.Event.{Event}
use skeg_rigging.Event.Channel.{Channels}
use skeg_rigging.Tenant
use skeg_rigging.Tenant.{Tenant, emit}
use skeg_rigging.Tenant.Engine.{Index}
use skeg_rigging.Tenant.Threads.{Call, Answer, locked, whole, sequence, locks, emit_all, announced}

-- The same tenant with other subscribers.
abbrev pub for_others : {I : Type 0} → List ℕ → Tenant I → Tenant I
for_others s t = record t { subscribers = s }

module _ {I F : Type 0} ⦃e : Index I F⦄ where
  -- The first lock of a call does not look at the subscribers.
  locked-for_others :
      (call : Call F) (s : List ℕ) (t : Tenant I)
      → locked call (for_others s t)
        ≡ ((locked call t).0, for_others s (locked call t).1, (locked call t).2)
  unfolding locked
  locked-for_others (Call.insert rec) s t = ground arith
  locked-for_others (Call.delete id) s t = ground arith

  -- A call that nothing interrupts answers, and leaves in index and sidecar, what its first lock
  -- does.
  whole-locked :
      (call : Call F) (t : Tenant I) (cs : Channels)
      → ((whole call t cs).0 ≡ (locked call t).0)
        × (for_others [] (whole call t cs).1 ≡ for_others [] (locked call t).1)
  unfolding whole locked Tenant.insert Tenant.delete emit Tenant.store_entry
  whole-locked (Call.insert rec) t cs = ground arith
  whole-locked (Call.delete id) t cs = ground arith

  -- It is its first lock, and then the sending of what that announces.
  whole-emit_all :
      (call : Call F) (t : Tenant I) (cs : Channels)
      → let (answer, t', events) = locked call t in
        whole call t cs ≡ (answer, (emit_all events t' cs).0, (emit_all events t' cs).1)
  unfolding whole locked Tenant.insert Tenant.delete Tenant.store_entry
  whole-emit_all (Call.insert rec) t cs = ground arith
  whole-emit_all (Call.delete id) t cs = ground arith

  -- Tenants that differ in their subscribers only are locked alike.
  pub locked_alike :
      (call : Call F) (t m : Tenant I)
      → for_others [] t ≡ for_others [] m
      → ◌≡◌ {A = Answer × Tenant I × List Event}
          ((locked call t).0, for_others [] (locked call t).1, (locked call t).2)
          ((locked call m).0, for_others [] (locked call m).1, (locked call m).2)
  locked_alike call t m same =
      sym (locked-for_others call [] t) ∙ ap (locked call) same ∙ locked-for_others call [] m

  pub sequence-locks :
      (calls : List (Call F)) (t : Tenant I) (cs : Channels)
      → ((sequence calls t cs).0 ≡ (locks calls t).0)
        × (for_others [] (sequence calls t cs).1 ≡ for_others [] (locks calls t).1)
  unfolding sequence locks
  sequence-locks [] t cs = (refl, refl)
  sequence-locks (call ∷ calls) t cs =
      let (answers, held) = sequence-locks calls t cs in
      let (_, t', cs') = sequence calls t cs in
      let m = (locks calls t).1 in
      let (answer, after) = whole-locked call t' cs' in
      let both = locked_alike call t' m held in
      (
        ap (λ a. a ∷ (sequence calls t cs).0) (answer ∙ ap (λ x. x.0) both)
            ∙ ap (◌∷◌ (locked call m).0) answers,
        after ∙ ap (λ x. x.1) both,
      )

  -- A first lock announces what its answer says, and leaves the subscribers alone.
  pub locked-announced :
      (call : Call F) (t : Tenant I)
      → ((locked call t).2 ≡ announced call (locked call t).0)
        × ((locked call t).1.subscribers ≡ t.subscribers)
  unfolding locked
  locked-announced (Call.insert rec) t = ground arith
  locked-announced (Call.delete id) t = ground arith
