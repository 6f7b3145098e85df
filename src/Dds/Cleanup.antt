-- ===== src/Dds/Cleanup.antt =====
-- RtpDdsGateway/src/dds_manager_cleanup.cpp: `clear_entities`, and `set_on_sample` of
-- RtpDdsGateway/src/dds_manager_io.cpp. What the holders keep goes with the holders.
use connext_triad.Prelude.{ℕ, Option, []}
use connext_triad.Dds.State.{Manager, listener, wait_set}
use connext_triad.Dds.Events.{dispatcher_stop, dispatcher_start, detach_all}

module _ {World : Type 0} where
  -- `readers_.clear()` … `participants_.clear()`
  unfoldable pub clear_maps : Manager World → Manager World
  clear_maps m = record m {
    readers = [];
    writers = [];
    topics = [];
    topic_to_type = [];
    subscribers = [];
    publishers = [];
    participants = [];
    sample_callbacks = [];
    listening = [];
  }

  unfoldable pub clear_entities : Manager World → Manager World
  unfolding clear_maps dispatcher_stop dispatcher_start detach_all
  clear_entities m = elim m.event_mode [
    | listener ↦ clear_maps m
    | wait_set ↦ dispatcher_start (clear_maps (detach_all (dispatcher_stop m)))
  ]

  unfoldable pub set_on_sample : Option ℕ → Manager World → Manager World
  set_on_sample cb m = record m { on_sample = cb }
