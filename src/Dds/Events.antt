-- ===== src/Dds/Events.antt =====
-- Registration of event handlers: `register_*_event`, `unregister_*_event` and `set_event_mode` of
-- RtpDdsGateway/src/dds_manager.cpp, and the attach and detach operations, `start`, `stop` and `detach_all` of
-- RtpDdsGateway/src/async/waitset_dispatcher.cpp. A condition belongs to one handler, so a table is
-- the list of its handlers.
use connext_triad.Prelude.{
  ℕ, Bool, true, false, List, [], ◌∷◌, ◌||◌, ◌==◌, nat_eq, not, if◌then◌else◌, is_empty,
}
use connext_triad.Dds.External.{Rti, done, raised}
use connext_triad.Dds.State.{Manager, EventMode, listener, wait_set, throws}
use connext_triad.Dds.Monad.{M, ◌>>=◌, ◌>>◌, pure, exit, gets, modify, outside}

unfoldable pub without : ℕ → List ℕ → List ℕ
without h [] = []
without h (k ∷ ks) = let rest = without h ks in if h == k then rest else k ∷ rest

-- `handlers_[cond] = handler`
unfoldable pub put : ℕ → List ℕ → List ℕ
unfolding without
put h hs = h ∷ without h hs

module _ (rti : Rti) where
  open rti use {World, set_listener, attach_status, attach_read, detach_status, detach_read}

  -- An exception is logged and the handler is left out.
  unfoldable pub attach_monitor : ℕ → M World (Unit {0})
  attach_monitor h = do
    result ← outside (attach_status h)
    elim result [
      | done ↦ modify (λ m. record m { monitored = put h m.monitored })
      | raised _ ↦ pure tt
    ]

  unfoldable pub attach_data : ℕ → M World (Unit {0})
  attach_data h = do
    result ← outside (attach_read h)
    elim result [ done ↦ modify (λ m. record m { polled = put h m.polled }) | raised _ ↦ pure tt ]

  -- An exception leaves the handler in the table.
  unfoldable pub detach_monitor : ℕ → M World (Unit {0})
  detach_monitor h = do
    result ← outside (detach_status h)
    elim result [
      | done ↦ modify (λ m. record m { monitored = without h m.monitored })
      | raised _ ↦ pure tt
    ]

  unfoldable pub detach_data : ℕ → M World (Unit {0})
  detach_data h = do
    result ← outside (detach_read h)
    elim result [
      | done ↦ modify (λ m. record m { polled = without h m.polled })
      | raised _ ↦ pure tt
    ]

  -- `enable_listener_mode(true)`, which lets an exception through.
  unfoldable pub enable_listener : ℕ → M World (Unit {0})
  enable_listener h = do
    result ← outside (set_listener h)
    elim result [
      | done ↦ modify (λ m. record m { listening = put h m.listening })
      | raised what ↦ exit (throws what)
    ]

  unfoldable pub register_reader_event : ℕ → M World (Unit {0})
  register_reader_event h = do
    mode ← gets (λ m. m.event_mode)
    elim mode [ listener ↦ enable_listener h | wait_set ↦ do attach_monitor h; attach_data h ]

  unfoldable pub register_writer_event : ℕ → M World (Unit {0})
  register_writer_event h = do
    mode ← gets (λ m. m.event_mode)
    elim mode [ listener ↦ enable_listener h | wait_set ↦ attach_monitor h ]

  -- `enable_listener_mode(false)` does nothing.
  unfoldable pub unregister_reader_event : ℕ → M World (Unit {0})
  unregister_reader_event h = do detach_monitor h; detach_data h

  unfoldable pub unregister_writer_event : ℕ → M World (Unit {0})
  unregister_writer_event h = detach_monitor h

module _ {World : Type 0} where
  unfoldable pub has_entities : Manager World → Bool
  has_entities m =
      not (is_empty m.participants)
      || (not (is_empty m.publishers)
          || (not (is_empty m.subscribers)
              || (not (is_empty m.writers) || not (is_empty m.readers))))

  -- The mode may change only while there is no entity.
  unfoldable pub set_event_mode : EventMode → M World (Unit {0})
  set_event_mode mode m =
      if has_entities m
      then exit
          (throws "DdsManager::set_event_mode must be called before creating any DDS entities") m
      else modify (λ n. record n { event_mode = mode }) m

  unfoldable pub dispatcher_stop : Manager World → Manager World
  dispatcher_stop m = record m { dispatching = false }

  unfoldable pub dispatcher_start : Manager World → Manager World
  dispatcher_start m = record m { dispatching = true }

  unfoldable pub detach_all : Manager World → Manager World
  detach_all m = record m { monitored = []; polled = [] }
