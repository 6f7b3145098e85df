-- ===== src/Xml/Qos.antt =====
-- What RtpDdsGateway/src/qos_xml_helpers.cpp reads of the QoS objects of the RTI library. Numbers come
-- printed, as `std::to_string` prints them.
use connext_triad.Prelude.{Bool, Option}
use connext_triad.Xml.Text.{Bytes}

-- A `Duration` with the comparisons that the code makes.
pub record Duration : Type 0 where
  pub infinite : Bool
  pub zero : Bool
  pub is_100ms : Bool
  pub sec : Bytes
  pub nanosec : Bytes

pub data ReliabilityKind : Type 0 where
  reliable best_effort : ReliabilityKind

pub data DurabilityKind : Type 0 where
  persistent transient transient_local volatile : DurabilityKind

pub data OwnershipKind : Type 0 where
  exclusive shared : OwnershipKind

pub data HistoryKind : Type 0 where
  keep_last keep_all : HistoryKind

pub data LivelinessKind : Type 0 where
  manual_by_participant manual_by_topic automatic : LivelinessKind

pub record Reliability : Type 0 where
  pub kind : ReliabilityKind
  pub max_blocking_time : Option Duration

pub record History : Type 0 where
  pub kind : HistoryKind
  pub depth : Bytes

-- `none` is LENGTH_UNLIMITED.
pub record ResourceLimits : Type 0 where
  pub max_samples : Option Bytes
  pub max_instances : Option Bytes
  pub max_samples_per_instance : Option Bytes

pub record Liveliness : Type 0 where
  pub kind : LivelinessKind
  pub lease_duration : Duration

-- A number, and whether it is 0.
pub record Value : Type 0 where
  pub zero : Bool
  pub printed : Bytes

-- The policies that the code asks a QoS object for. Those that it does not have are `none`.
pub record Policies : Type 0 where
  pub reliability : Option Reliability
  pub durability : Option DurabilityKind
  pub history : Option History
  pub resource_limits : Option ResourceLimits
  pub deadline : Option Duration
  pub latency_budget : Option Duration
  pub liveliness : Option Liveliness
  pub ownership : Option OwnershipKind
  pub ownership_strength : Option Value
  pub transport_priority : Option Value
