-- ===== src/Event/Channel.antt =====
-- The `std::sync::mpsc` channels behind crates/skeg-rigging/src/events.rs, as a store that the
-- tenants and the streams share, and the loop by which a tenant sends an event to its subscribers.
-- A sender stands only in one tenant's list, a receiver only in one stream.
pub mod Broadcast
use skeg_rigging.Base.{
  ℕ, ◌+◌, Bool, true, false, List, [], ◌∷◌, ◌++◌, ◌==◌, if◌then◌else◌, ◌≡◌, ◌≢◌, ==_iff, arith,
}
use skeg_rigging.Event.{Event}

-- What is queued and not yet received, and which ends still exist.
pub record Channel : Type 0 where
  pub queue : List Event
  pub receiver : Bool
  pub sender : Bool

-- Channels are numbered in the order of their creation.
pub record Channels : Type 0 where
  pub next : ℕ
  pub channel : ℕ → Channel

abbrev pub update : (ℕ → Channel) → ℕ → Channel → ℕ → Channel
update chans i c j = if i == j then c else chans j

abbrev pub set_channel : Channels → ℕ → Channel → Channels
set_channel cs i c = record cs { channel = update cs.channel i c }

pub update_self : (chans : ℕ → Channel) (i : ℕ) (c : Channel) → update chans i c i ≡ c
update_self chans i c = ground (arith, ==_iff i i)

pub update_ne : (chans : ℕ → Channel) (i j : ℕ) (c : Channel) → i ≢ j → update chans i c j ≡ chans j
update_ne chans i j c h = ground (arith, ==_iff i j)

-- `mpsc::channel()`
unfoldable pub open_channel : Channels → Channels
open_channel cs = record {
  next = cs.next + 1;
  channel = update cs.channel cs.next (record { queue = []; receiver = true; sender = true });
}

-- The receiver is dropped with its queue.
unfoldable pub drop_receiver : ℕ → Channels → Channels
drop_receiver i cs = set_channel cs i (record (cs.channel i) { queue = []; receiver = false })

unfoldable pub drop_sender : ℕ → Channels → Channels
drop_sender i cs = set_channel cs i (record (cs.channel i) { sender = false })

-- `Sender::send(event).is_ok()`: it fails only when the receiver is gone.
unfoldable pub send : Event → ℕ → Channels → Bool × Channels
send event i cs =
    if (cs.channel i).receiver
    then (
      true,
      set_channel cs i (record (cs.channel i) { queue = (cs.channel i).queue ++ event ∷ [] }),
    )
    else (false, cs)

-- One round of `retain`: what was sent stays, and a sender that fails is dropped.
keep_sender : ℕ → Bool × Channels → List ℕ × Channels → List ℕ × Channels
keep_sender s (true, _) (kept, cs) = (s ∷ kept, cs)
keep_sender s (false, _) (kept, cs) = (kept, cs)

settle : ℕ → Bool × Channels → Channels
settle s (true, cs) = cs
settle s (false, cs) = drop_sender s cs

-- `subs.retain(|s| s.send(event.clone()).is_ok())`
unfoldable pub broadcast : Event → List ℕ → Channels → List ℕ × Channels
unfolding send keep_sender settle drop_sender
broadcast event [] cs = ([], cs)
broadcast event (s ∷ subs) cs =
    let sent = send event s cs in keep_sender s sent (broadcast event subs (settle s sent))
