-- ===== src/Tenant/Heard.antt =====
-- The subscribers of a `Tenant` (crates/skeg-rigging-skeg/src/tenant.rs) and one of their channels,
-- when an event is sent and when another subscriber comes.
use skeg_rigging.Base.{ℕ, ◌<◌, ◌+◌, ◌≡◌, ◌≢◌, ap, ◌∙◌, All, true, List, [], ◌∷◌, ◌++◌, arith}
use skeg_rigging.Event.{Event}
use skeg_rigging.Event.Channel.{Channel, Channels, open_channel, broadcast, update_ne}
use skeg_rigging.Event.Channel.Broadcast.{
  Distinct, contains, is_live, contains-broadcast, next-broadcast, Distinct-broadcast,
  All-broadcast,
}
use skeg_rigging.Mock.Valid.{contains-append, Distinct-append}
use skeg_rigging.Mock.Broadcasts.{delivered_live}

-- The channel `s` is one that a tenant sends to and from which somebody can receive, and its
-- subscribers are apart.
pub record IsHeard (s : ℕ) (subscribers : List ℕ) (cs : Channels) : Type 0 where
  pub apart : Distinct subscribers
  pub bound : All (λ j. j < cs.next) subscribers
  pub member : contains s subscribers ≡ true
  pub live : is_live cs s ≡ true
  pub opened : s < cs.next

pub broadcast-IsHeard :
    (event : Event) (s : ℕ) (subs : List ℕ) (cs : Channels)
    → IsHeard s subs cs
    → IsHeard s (broadcast event subs cs).0 (broadcast event subs cs).1
broadcast-IsHeard event s subs cs h = record {
  apart = Distinct-broadcast event subs cs h.apart;
  bound = rw next-broadcast (All-broadcast (λ j. j < cs.next) event subs cs h.bound);
  member = contains-broadcast event subs cs s ∙ rw (h.member, h.live);
  live =
      ap (λ (c : Channel). c.receiver) (delivered_live event subs cs s h.apart h.member h.live)
      ∙ h.live;
  opened = rw next-broadcast h.opened;
}

below_next : (n : ℕ) (subs : List ℕ) → All (λ j. j < n) subs → All (λ j. j < n + 1) (subs ++ n ∷ [])
below_next n [] h = (omega arith, tt)
below_next n (j ∷ subs) h = (omega (arith, h.0), below_next n subs h.1)

pub opened-IsHeard :
    (s : ℕ) (subs : List ℕ) (cs : Channels)
    → IsHeard s subs cs
    → IsHeard s (subs ++ cs.next ∷ []) (open_channel cs)
      × ((open_channel cs).channel s ≡ cs.channel s)
unfolding open_channel
opened-IsHeard s subs cs h =
    let other : cs.next ≢ s = omega (arith, h.opened) in
    let same = update_ne cs.channel cs.next s _ other in
    (
      record {
        apart = Distinct-append subs cs.next h.bound h.apart;
        bound = below_next cs.next subs h.bound;
        member = contains-append subs s cs.next ∙ rw h.member;
        live = ap (λ (c : Channel). c.receiver) same ∙ h.live;
        opened = omega (arith, h.opened);
      },
      same,
    )
