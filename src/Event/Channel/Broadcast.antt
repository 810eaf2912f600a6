-- ===== src/Event/Channel/Broadcast.antt =====
-- What `broadcast` does to every channel and to the list of senders.
use mathlib.Core.Path.{fun_ext}
use skeg_rigging.Base.{
  ℕ, ◌≡◌, refl, ap, Bool, true, false, List, [], ◌∷◌, ◌++◌, arith, ◌==◌, ==_iff, filter, any, All,
  All-filter, if_elim, ◌&&◌, Bool-cases, inl, inr, ◌∙◌, if◌then◌else◌,
}
use skeg_rigging.Event.{Event}
use skeg_rigging.Event.Channel.{
  Channel, Channels, send, settle, keep_sender, drop_sender, broadcast,
}

abbrev pub contains : ℕ → List ℕ → Bool
contains j = any (λ s. s == j)

-- No sender stands twice in the list.
abbrev pub Distinct : List ℕ → Type 0
Distinct [] = Unit
Distinct (s ∷ subs) = (contains s subs ≡ false) × Distinct subs

abbrev pub is_live : Channels → ℕ → Bool
is_live cs s = (cs.channel s).receiver

-- One event handed to a channel: queued if somebody can receive it, else the sender is dropped.
abbrev pub delivered : Event → Bool → Channel → Channel
delivered event member c =
    if member
    then (if c.receiver
        then record c { queue = c.queue ++ event ∷ [] }
        else record c { sender = false })
    else c

settle-send :
    (event : Event) (s j : ℕ) (cs : Channels)
    → (settle s (send event s cs)).channel j
      ≡ (if s == j then delivered event true (cs.channel s) else cs.channel j)
unfolding send settle drop_sender
settle-send event s j cs = ground arith

receiver-settle :
    (event : Event) (s j : ℕ) (cs : Channels)
    → is_live (settle s (send event s cs)) j ≡ is_live cs j
receiver-settle event s j cs = ground (arith, settle-send event s j cs)

next-settle : (event : Event) (s : ℕ) (cs : Channels) → (settle s (send event s cs)).next ≡ cs.next
unfolding send settle drop_sender
next-settle event s cs = ground arith

channel-keep_sender :
    (s : ℕ) (sent : Bool × Channels) (rest : List ℕ × Channels)
    → (keep_sender s sent rest).1 ≡ rest.1
unfolding keep_sender
channel-keep_sender s (true, cs) rest = refl
channel-keep_sender s (false, cs) rest = refl

pub next-broadcast :
    (event : Event) (subs : List ℕ) (cs : Channels) → (broadcast event subs cs).1.next ≡ cs.next
unfolding broadcast
next-broadcast event [] cs = refl
next-broadcast event (s ∷ subs) cs =
    rw channel-keep_sender
      (next-broadcast event subs (settle s (send event s cs)) ∙ next-settle event s cs)

-- One sender after another comes to the same as one delivery to each channel.
delivered-settle :
    (event : Event) (s : ℕ) (subs : List ℕ) (cs : Channels) (j : ℕ)
    → contains s subs ≡ false
    → delivered event (contains j subs) ((settle s (send event s cs)).channel j)
      ≡ delivered event (contains j (s ∷ subs)) (cs.channel j)
delivered-settle event s subs cs j d = elim (Bool-cases (s == j)) [
  | inl same ↦
      rw (settle-send event s j cs) (rw (← (==_iff s j).0 same, d) (ground (arith, ==_iff s j)))
  | inr other ↦ rw (settle-send event s j cs, other)
]

-- Over distinct senders, each channel among theirs gets the event once, or loses its sender if its
-- receiver is gone, and every other channel stays as it is.
pub channel-broadcast :
    (event : Event) (subs : List ℕ) (cs : Channels) (j : ℕ)
    → Distinct subs
    → (broadcast event subs cs).1.channel j ≡ delivered event (contains j subs) (cs.channel j)
unfolding broadcast
channel-broadcast event [] cs j d = refl
channel-broadcast event (s ∷ subs) cs j d = rw channel-keep_sender (
    channel-broadcast event subs (settle s (send event s cs)) j d.1
    ∙ delivered-settle event s subs cs j d.0)

senders-keep_sender :
    (event : Event) (s : ℕ) (cs : Channels) (rest : List ℕ × Channels)
    → (keep_sender s (send event s cs) rest).0 ≡ (if is_live cs s then s ∷ rest.0 else rest.0)
unfolding keep_sender send
senders-keep_sender event s cs rest = ground arith

-- The senders that stay are those whose receiver exists, in their order.
senders-broadcast :
    (event : Event) (subs : List ℕ) (cs : Channels)
    → (broadcast event subs cs).0 ≡ filter (is_live cs) subs
unfolding broadcast
senders-broadcast event [] cs = refl
senders-broadcast event (s ∷ subs) cs =
    senders-keep_sender event s cs (broadcast event subs (settle s (send event s cs)))
    ∙ ap (λ rest. if is_live cs s then s ∷ rest else rest)
        (senders-broadcast event subs (settle s (send event s cs))
          ∙ ap (λ live. filter live subs) (fun_ext (λ j. receiver-settle event s j cs)))

contains-filter :
    (p : ℕ → Bool) (s : ℕ) (subs : List ℕ) → contains s (filter p subs) ≡ (contains s subs && p s)
contains-filter p s [] = refl
contains-filter p s (x ∷ subs) = ground (arith, contains-filter p s subs, ==_iff x s)

Distinct-filter : (p : ℕ → Bool) (subs : List ℕ) → Distinct subs → Distinct (filter p subs)
Distinct-filter p [] d = tt
Distinct-filter p (s ∷ subs) d =
    if_elim Distinct (p s)
      (λ _. (contains-filter p s subs ∙ ap (λ b. b && p s) d.0, Distinct-filter p subs d.1))
      (λ _. Distinct-filter p subs d.1)

-- A broadcast keeps the list of senders free of doubles, and below a bound that held.
pub Distinct-broadcast :
    (event : Event) (subs : List ℕ) (cs : Channels)
    → Distinct subs
    → Distinct (broadcast event subs cs).0
Distinct-broadcast event subs cs d = rw senders-broadcast (Distinct-filter (is_live cs) subs d)

pub All-broadcast :
    (P : ℕ → Type 0) (event : Event) (subs : List ℕ) (cs : Channels)
    → All P subs
    → All P (broadcast event subs cs).0
All-broadcast P event subs cs h = rw senders-broadcast (All-filter P (is_live cs) subs h)

-- A subscriber that can receive stays in the list.
pub contains-broadcast :
    (event : Event) (subs : List ℕ) (cs : Channels) (s : ℕ)
    → contains s (broadcast event subs cs).0 ≡ (contains s subs && is_live cs s)
contains-broadcast event subs cs s = rw senders-broadcast (contains-filter (is_live cs) s subs)
