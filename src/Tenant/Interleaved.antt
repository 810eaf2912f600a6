-- ===== src/Tenant/Interleaved.antt =====
-- What threads that write through one `Tenant` (crates/skeg-rigging-skeg/src/tenant.rs) do to each
-- other.
use mathlib.Core.Path.{subst}
use mathlib.Core.List.{Perm, perm_middle, append_assoc, append-nil}
use mathlib.Core.List.Perm
use skeg_rigging.Base.{ℕ, ◌≡◌, refl, sym, ap, ◌∙◌, List, [], ◌∷◌, ◌++◌}
use skeg_rigging.Event.{Event}
use skeg_rigging.Event.Channel.{Channel, Channels}
use skeg_rigging.Tenant.Heard.{IsHeard, broadcast-IsHeard, opened-IsHeard}
use skeg_rigging.Mock.Broadcasts.{delivered_live}
use skeg_rigging.Tenant
use skeg_rigging.Tenant.{Tenant, emit}
use skeg_rigging.Tenant.Engine.{Index}
use skeg_rigging.Tenant.Threads.{
  Call, Answer, locked, sequence, locks, World, Step, lock, send, subscribe, Run, start, then, idle,
  announced, all_announced,
}
use skeg_rigging.Tenant.Locks.{for_others, locked_alike, sequence-locks, locked-announced}

module _ {I F : Type 0} ⦃e : Index I F⦄ (s : ℕ) where
  -- Of a world that threads brought about from `t` and `cs`: what their first locks make of it, and
  -- what the channel `s` got.
  record Follows (t : Tenant I) (cs : Channels) (w : World I F) : Type 0 where
    answers : w.answers ≡ (locks w.calls t).0
    held : for_others [] w.tenant ≡ for_others [] (locks w.calls t).1
    heard : IsHeard s w.tenant.subscribers w.channels
    arrived : List Event
    queued : (w.channels.channel s).queue ≡ (cs.channel s).queue ++ arrived
    events : Perm (arrived ++ w.pending) (all_announced w.calls w.answers)

  lock-Follows :
      {t : Tenant I} {cs : Channels} (w : World I F) (call : Call F) (answer : Answer)
      (t' : Tenant I) (events : List Event)
      → locked call w.tenant ≡ (answer, t', events)
      → Follows t cs w
      → Follows t cs (record w {
        tenant = t';
        pending = w.pending ++ events;
        calls = call ∷ w.calls;
        answers = answer ∷ w.answers;
      })
  unfolding locks
  lock-Follows {t = t} w call answer t' events ran f =
      let m = (locks w.calls t).1 in
      let both : ◌≡◌ {A = Answer × Tenant I} (answer, for_others [] t')
          ((locked call m).0, for_others [] (locked call m).1) =
        ap (λ x. (x.0, for_others [] x.1)) (sym ran)
        ∙ ap (λ x. (x.0, x.1)) (locked_alike call w.tenant m f.held) in
      let (told, others) = locked-announced call w.tenant in
      let told' : events ≡ announced call answer =
        ap (λ x. x.2) (sym ran) ∙ told ∙ ap (λ x. announced call x.0) ran in
      record {
        answers = ap (◌∷◌ answer) f.answers ∙ ap (λ x. x.0 ∷ (locks w.calls t).0) both;
        held = ap (λ x. x.1) both;
        heard =
            subst (λ subs. IsHeard s subs w.channels) (sym others ∙ ap (λ x. x.1.subscribers) ran)
              f.heard;
        arrived = f.arrived;
        queued = f.queued;
        events =
            subst (λ es. Perm es (all_announced w.calls w.answers ++ announced call answer))
              (append_assoc f.arrived w.pending events)
              (Perm.append f.events (subst (Perm events) told' (Perm.refl events)));
      }

  send-Follows :
      {t : Tenant I} {cs : Channels} (w : World I F) (before after : List Event) (event : Event)
      → w.pending ≡ before ++ event ∷ after
      → Follows t cs w
      → Follows t cs (record w {
        tenant = (emit event w.tenant w.channels).0;
        channels = (emit event w.tenant w.channels).1;
        pending = before ++ after;
      })
  unfolding emit
  send-Follows {cs = cs} w before after event waits f =
      let h = f.heard in
      record {
        answers = f.answers;
        held = f.held;
        heard = broadcast-IsHeard event s w.tenant.subscribers w.channels h;
        arrived = f.arrived ++ event ∷ [];
        queued =
            ap (λ (c : Channel). c.queue)
              (delivered_live event w.tenant.subscribers w.channels s h.apart h.member h.live)
            ∙ ap (λ q. q ++ event ∷ []) f.queued
            ∙ append_assoc (cs.channel s).queue f.arrived (event ∷ []);
        events =
            Perm.trans
              (subst (λ es. Perm es (f.arrived ++ (before ++ event ∷ after)))
                (sym (append_assoc f.arrived (event ∷ []) (before ++ after)))
                (Perm.append_left f.arrived (Perm.symm (perm_middle before after))))
              (subst (λ p. Perm (f.arrived ++ p) (all_announced w.calls w.answers)) waits f.events);
      }

  step-Follows :
      {t : Tenant I} {cs : Channels} {w w' : World I F}
      → Step w w'
      → Follows t cs w
      → Follows t cs w'
  unfolding Tenant.subscribe
  step-Follows {w = w} (lock call answer t' events ran) f =
      lock-Follows w call answer t' events ran f
  step-Follows {w = w} (send before after event waits) f = send-Follows w before after event waits f
  step-Follows {w = w} (subscribe filter) f =
      let (heard, same) = opened-IsHeard s w.tenant.subscribers w.channels f.heard in
      record {
        answers = f.answers;
        held = f.held;
        heard = heard;
        arrived = f.arrived;
        queued = ap (λ (c : Channel). c.queue) same ∙ f.queued;
        events = f.events;
      }

  run-Follows :
      {t : Tenant I} {cs : Channels} {w w' : World I F}
      → Run w w'
      → Follows t cs w
      → Follows t cs w'
  run-Follows start f = f
  run-Follows (then run step) f = step-Follows step (run-Follows run f)

  -- However the threads that insert, delete and subscribe come in between each other: each call gets
  -- the answer, and index and sidecar end up, as if the calls had run one after another in the order
  -- of their first locks; and once no event is still to be sent, a subscriber that was there before
  -- has, behind what was queued for it, one event for each insert whose answer is that it was
  -- accepted and for each delete whose answer is that it removed a record, and no other, in some
  -- order.
  pub run-sequence :
      (t : Tenant I) (cs : Channels) (w : World I F)
      → IsHeard s t.subscribers cs
      → Run (idle t cs) w
      → w.pending ≡ []
      → let (answers, t', cs') = sequence w.calls t cs in
        (w.answers ≡ answers)
        × (w.tenant.index ≡ t'.index)
        × (w.tenant.sidecar ≡ t'.sidecar)
        × (arrived : List Event) × ((w.channels.channel s).queue ≡ (cs.channel s).queue ++ arrived)
        × Perm arrived (all_announced w.calls answers)
  unfolding locks
  run-sequence t cs w heard run quiet =
      let f = run-Follows {t = t} {cs = cs} run (record {
        answers = refl;
        held = refl;
        heard = heard;
        arrived = [];
        queued = sym (append-nil (cs.channel s).queue);
        events = Perm.refl [];
      }) in
      let (answers, held) = sequence-locks w.calls t cs in
      (
        f.answers ∙ sym answers,
        ap (λ (x : Tenant I). x.index) (f.held ∙ sym held),
        ap (λ (x : Tenant I). x.sidecar) (f.held ∙ sym held),
        f.arrived,
        f.queued,
        subst (λ a. Perm f.arrived (all_announced w.calls a)) (f.answers ∙ sym answers)
            (subst (λ events. Perm events (all_announced w.calls w.answers))
              (ap (λ p. f.arrived ++ p) quiet ∙ append-nil f.arrived) f.events),
      )
