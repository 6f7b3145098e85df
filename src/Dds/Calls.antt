-- ===== src/Dds/Calls.antt =====
-- The calls of `IDdsManager` (RtpDdsGateway/include/rtpdds/api/idds_manager.hpp) that
-- `DdsManager` answers under its mutex, its `remove_writer` and `remove_reader`, and any sequence of
-- them.
pub mod Reachable
use connext_triad.Prelude.{ℕ, ℤ, String, Option, List, [], ◌∷◌}
use connext_triad.Dds.External.{Rti}
use connext_triad.Dds.State.{EventMode, Manager}
use connext_triad.Dds.Monad.{M}
use connext_triad.Dds.Events.{set_event_mode}
use connext_triad.Dds.Create.{
  create_participant, create_publisher, create_subscriber, create_writer, create_reader,
}
use connext_triad.Dds.Cleanup.{clear_entities, set_on_sample}
use connext_triad.Dds.Remove.{remove_writer, remove_reader}
use connext_triad.Dds.Publish.{publish_json, publish_json_at}
use connext_triad.Dds.Samples.{Samples}

module _ (rti : Rti) (samples : Samples rti.World) where
  open rti use {World}

  pub data Call : Type 0 where
    participant : ℤ → String → String → Call
    publisher subscriber : ℤ → String → String → String → Call
    writer reader : ℤ → String → String → String → String → String → Call
    publish : String → samples.Json → Call
    publish_at : ℤ → String → String → samples.Json → Call
    on_sample : Option ℕ → Call
    mode : EventMode → Call
    clear : Call
    drop_writer drop_reader : ℕ → Call

  -- The state after a call.
  unfoldable pub after : Call → Manager World → Manager World
  after (participant d lib prof) m = (create_participant rti d lib prof m).1
  after (publisher d n lib prof) m = (create_publisher rti d n lib prof m).1
  after (subscriber d n lib prof) m = (create_subscriber rti d n lib prof m).1
  after (writer d n topic type_name lib prof) m =
      (create_writer rti d n topic type_name lib prof m).1
  after (reader d n topic type_name lib prof) m =
      (create_reader rti d n topic type_name lib prof m).1
  after (publish topic j) m = (publish_json samples topic j m).1
  after (publish_at d n topic j) m = (publish_json_at samples d n topic j m).1
  after (on_sample cb) m = set_on_sample cb m
  after (mode event_mode) m = (set_event_mode event_mode m).1
  after clear m = clear_entities m
  after (drop_writer id) m = (remove_writer rti id m).1
  after (drop_reader id) m = (remove_reader rti id m).1

  unfoldable pub after_all : List Call → Manager World → Manager World
  unfolding after
  after_all [] m = m
  after_all (c ∷ cs) m = after_all cs (after c m)
