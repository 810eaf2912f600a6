-- ===== src/Suite/Subscribers.antt =====
-- The tests of the events in crates/skeg-rigging/src/mock.rs. A tick is a millisecond.
use skeg_rigging.Base.{◌≡◌, refl, true, false, not, [], ◌∷◌, Outcome, length, ◌==◌}
use skeg_rigging.Base.Keyed
use skeg_rigging.Ids.{anonymous}
use skeg_rigging.Text.{len}
use skeg_rigging.Event.{all, nothing, accepts}
use skeg_rigging.Event.Channel.{broadcast, drop_receiver, open_channel}
use skeg_rigging.Event.Stream.{try_recv}
use skeg_rigging.Event.Stream.Timed
use skeg_rigging.Float.{Float}
use skeg_rigging.Mock
use skeg_rigging.Suite.{
  ◌>>=◌, assert, passed, World, fresh, rec, insert, delete, subscribe, recv_timeout, arrived,
  is_err, is_insert, is_shareable_insert, is_delete, is_any_delete,
}

module _ (F : Type 0) ⦃f : Float F⦄ where
  abbrev subscribe_receives_record_inserted : Outcome (Unit {0})
  subscribe_receives_record_inserted =
      let w : World F = fresh anonymous 2 in
      let (stream, w1) = subscribe all w in
      do
        w2 ← insert (rec 1 (true ∷ false ∷ []) true [] []) w1
        ev ← arrived (recv_timeout 100 stream w2).0
        assert (is_shareable_insert 1 ev)

  abbrev subscribe_receives_record_deleted : Outcome (Unit {0})
  subscribe_receives_record_deleted = do
    w ← insert {F = F} (rec 7 (true ∷ false ∷ []) false [] []) (fresh anonymous 2)
    let (stream, w1) = subscribe all w in
        let (removed, w2) = delete 7 w1 in
        do _ ← assert removed; ev ← arrived (recv_timeout 100 stream w2).0; assert (is_delete 7 ev)

  abbrev filter_drops_unwanted_events : Outcome (Unit {0})
  filter_drops_unwanted_events =
      let w : World F = fresh anonymous 2 in
      let (stream, w1) =
        subscribe (record nothing { record_inserted = false; record_deleted = true }) w in
      do
        w2 ← insert (rec 1 (true ∷ false ∷ []) false [] []) w1
        let (first, w3) = recv_timeout 30 stream w2 in
            do
              failed ← is_err first
              _ ← assert failed
              ev ← arrived (recv_timeout 100 stream (delete 1 w3).1).0
              assert (is_any_delete ev)

  abbrev multiple_subscribers_each_get_their_own_copy : Outcome (Unit {0})
  multiple_subscribers_each_get_their_own_copy =
      let w : World F = fresh anonymous 2 in
      let (s1, w1) = subscribe all w in
      let (s2, w2) = subscribe all w1 in
      do
        w3 ← insert (rec 42 (true ∷ false ∷ []) true [] []) w2
        let (first, w4) = recv_timeout 100 s1 w3 in
            do
              e1 ← arrived first
              e2 ← arrived (recv_timeout 100 s2 w4).0
              _ ← assert (is_insert 42 e1)
              assert (is_insert 42 e2)

  abbrev dropping_subscription_prunes_sender : Outcome (Unit {0})
  dropping_subscription_prunes_sender =
      let w : World F = fresh anonymous 2 in
      let (stream, w1) = subscribe all w in
      do
        w2 ← insert (rec 1 (true ∷ false ∷ []) false [] []) w1
        w3 ←
            insert (rec 2 (false ∷ true ∷ []) false [] [])
              (record w2 { channels = drop_receiver stream.rx w2.channels })
        assert (length w3.tenant.subscribers == 0)

  abbrev delete_of_missing_record_is_silent : Outcome (Unit {0})
  delete_of_missing_record_is_silent =
      let w : World F = fresh anonymous 2 in
      let (stream, w1) = subscribe all w in
      let (removed, w2) = delete 99 w1 in
      do _ ← assert (not removed); failed ← is_err (recv_timeout 30 stream w2).0; assert failed

  subscribers_pass :
      (subscribe_receives_record_inserted ≡ passed)
      × (subscribe_receives_record_deleted ≡ passed)
      × (filter_drops_unwanted_events ≡ passed)
      × (multiple_subscribers_each_get_their_own_copy ≡ passed)
      × (dropping_subscription_prunes_sender ≡ passed)
      × (delete_of_missing_record_is_silent ≡ passed)
  unfolding Mock.new Mock.insert Mock.check_quota Mock.write Mock.emit Mock.subscribe Keyed.store
      Mock.estimate_size len broadcast Mock.delete Timed.recv_timeout try_recv drop_receiver accepts
      open_channel
  subscribers_pass = (refl, refl, refl, refl, refl, refl)
