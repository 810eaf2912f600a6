-- ===== src/Event/Stream/Drain.antt =====
-- What a subscriber pulls from its stream, against the filtered queue.
use skeg_rigging.Base.{
  ℕ, zero, suc, ◌<◌, ◌≡◌, ◌≢◌, ◌⊎◌, refl, ap, ◌∙◌, Bool, List, [], ◌∷◌, ◌++◌, none, some, arith,
  filter, length, inl, inr,
}
use skeg_rigging.Event.{Event, EventFilter, accepts}
use skeg_rigging.Event.Channel.{Channel, Channels, update_self, update_ne}
use skeg_rigging.Event.Stream.{
  EventStream, Received, got, none_left, receive, try_recv, finished, waits, recv, next,
}

-- The events of the stream that passed its filter and were not received yet.
abbrev pub pending : EventStream → Channels → List Event
pending s cs = filter (accepts s.filter) (cs.channel s.rx).queue

List-cases {ℓ} : {A : Type ℓ} (xs : List A) → (xs ≡ []) ⊎ ((y : A) × (ys : List A) × (xs ≡ y ∷ ys))
List-cases [] = inl refl
List-cases (x ∷ xs) = inr (x, xs, refl)

-- What a receive answers from the events that pass, and what it leaves of them.
abbrev pub first_of_pending : Bool → List Event → Received
first_of_pending sender [] = none_left sender
first_of_pending sender (ev ∷ evs) = got ev

abbrev pub tail : List Event → List Event
tail [] = []
tail (ev ∷ evs) = evs

receive-filter :
    (f : EventFilter) (sender : Bool) (queue : List Event)
    → ((receive f sender queue).0 ≡ first_of_pending sender (filter (accepts f) queue))
      × (filter (accepts f) (receive f sender queue).1 ≡ tail (filter (accepts f) queue))
unfolding receive
receive-filter f sender [] = (refl, refl)
receive-filter f sender (ev ∷ queue) = ground (arith, receive-filter f sender queue)

-- One `try_recv` answers with the first pending event, in order, and takes exactly that one from
-- the pending events; with none pending it answers `empty` or `disconnected` by the sender.
pub try_recv-pending :
    (s : EventStream) (cs : Channels)
    → ((try_recv s cs).0 ≡ first_of_pending (cs.channel s.rx).sender (pending s cs))
      × (pending s (try_recv s cs).1 ≡ tail (pending s cs))
unfolding try_recv
try_recv-pending s cs =
    let c = cs.channel s.rx in
    let (answer, rest) = receive-filter s.filter c.sender c.queue in
    (
      answer,
      ap (λ (k : Channel). filter (accepts s.filter) k.queue) (update_self cs.channel s.rx _)
          ∙ rest,
    )

-- It leaves every other channel as it is.
try_recv_others :
    (s : EventStream) (cs : Channels) (j : ℕ)
    → s.rx ≢ j
    → (try_recv s cs).1.channel j ≡ cs.channel j
unfolding try_recv
try_recv_others s cs j other = update_ne cs.channel s.rx j _ other

-- A wait that is ended by later events answers as one receive from all the events would.
receive-append :
    (f : EventFilter) (before sender : Bool) (queue later : List Event)
    → filter (accepts f) queue ≡ []
    → ((receive f before queue).1 ≡ [])
      × (receive f sender (queue ++ later) ≡ receive f sender later)
unfolding receive
receive-append f before sender [] later h = (refl, refl)
receive-append f before sender (ev ∷ queue) later h =
    ground (arith, receive-append f before sender queue later)

-- `for ev in stream`, with at most so many rounds.
pub collect : ℕ → EventStream → Channels → List Event
collect zero s cs = []
collect (suc n) s cs =
    let (result, cs') = next s cs in
    elim result [ finished (some ev) ↦ ev ∷ collect n s cs' | finished none ↦ [] | waits ↦ [] ]

-- A loop over the stream yields exactly the pending events, in their order, given one round more
-- than there are such events.
pub collect-pending :
    (n : ℕ) (s : EventStream) (cs : Channels)
    → length (pending s cs) < n
    → collect n s cs ≡ pending s cs
unfolding collect next recv
collect-pending zero s cs h = absurd (omega arith)
collect-pending (suc n) s cs h =
    let (answer, rest) = try_recv-pending s cs in
    elim (List-cases (pending s cs)) [
      | inl done ↦ ground (arith, answer)
      | inr (ev, evs, more) ↦ ground (arith, answer, rest, collect-pending n s (try_recv s cs).1)
    ]
