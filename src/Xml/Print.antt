-- ===== src/Xml/Print.antt =====
-- The printing of QoS objects in RtpDdsGateway/src/qos_xml_helpers.cpp. A policy that throws is `none`.
pub mod Nesting
pub mod Elements
pub mod Balanced
mod Tests
use connext_triad.Prelude.{
  List, ◌∷◌, [], ◌++◌, Bool, true, false, not, Option, none, some, is_empty, if◌then◌else◌,
}
use connext_triad.Xml.Text.{Bytes, codes}
use connext_triad.Xml.Qos.{
  Duration, ReliabilityKind, DurabilityKind, OwnershipKind, HistoryKind, LivelinessKind,
  Reliability, History, ResourceLimits, Liveliness, Value, Policies, reliable, best_effort,
  persistent, transient, transient_local, volatile, exclusive, shared, keep_last, keep_all,
  manual_by_participant, manual_by_topic, automatic,
}

abbrev pub reliability_name : ReliabilityKind → Bytes
reliability_name reliable = codes "RELIABLE"
reliability_name best_effort = codes "BEST_EFFORT"

abbrev pub durability_name : DurabilityKind → Bytes
durability_name persistent = codes "PERSISTENT"
durability_name transient = codes "TRANSIENT"
durability_name transient_local = codes "TRANSIENT_LOCAL"
durability_name volatile = codes "VOLATILE"

abbrev pub ownership_name : OwnershipKind → Bytes
ownership_name exclusive = codes "EXCLUSIVE"
ownership_name shared = codes "SHARED"

abbrev pub history_name : HistoryKind → Bytes
history_name keep_last = codes "KEEP_LAST"
history_name keep_all = codes "KEEP_ALL"

abbrev pub liveliness_name : LivelinessKind → Bytes
liveliness_name manual_by_participant = codes "MANUAL_BY_PARTICIPANT"
liveliness_name manual_by_topic = codes "MANUAL_BY_TOPIC"
liveliness_name automatic = codes "AUTOMATIC"

abbrev pub fmt_limit : Option Bytes → Bytes
fmt_limit none = codes "LENGTH_UNLIMITED"
fmt_limit (some v) = v

unfoldable pub duration_to_xml : Duration → Bytes
duration_to_xml d =
    if d.infinite
    then codes "<sec>DURATION_INFINITE_SEC</sec><nanosec>DURATION_INFINITE_NSEC</nanosec>"
    else codes "<sec>" ++ d.sec ++ codes "</sec><nanosec>" ++ d.nanosec ++ codes "</nanosec>"

-- A time that cannot be read, or is the default of 100 ms, is left out.
unfoldable pub blocking_time : Option Duration → Bytes
unfolding duration_to_xml
blocking_time none = []
blocking_time (some mbt) =
    if mbt.is_100ms
    then []
    else codes "<max_blocking_time>" ++ duration_to_xml mbt ++ codes "</max_blocking_time>"

unfoldable pub reliability_to_xml : Reliability → Bytes
unfolding blocking_time
reliability_to_xml rel =
    codes "<reliability><kind>"
    ++ reliability_name rel.kind
    ++ codes "_RELIABILITY_QOS</kind>"
    ++ blocking_time rel.max_blocking_time
    ++ codes "</reliability>"

unfoldable pub durability_to_xml : DurabilityKind → Bytes
durability_to_xml kind =
    codes "<durability><kind>"
    ++ durability_name kind
    ++ codes "_DURABILITY_QOS</kind></durability>"

unfoldable pub depth_of : History → Bytes
depth_of hist = elim hist.kind [
  | keep_last ↦ codes "<depth>" ++ hist.depth ++ codes "</depth>"
  | keep_all ↦ []
]

unfoldable pub history_to_xml : History → Bytes
unfolding depth_of
history_to_xml hist =
    codes "<history><kind>"
    ++ history_name hist.kind
    ++ codes "_HISTORY_QOS</kind>"
    ++ depth_of hist
    ++ codes "</history>"

unfoldable pub resource_limits_to_xml : ResourceLimits → Bytes
resource_limits_to_xml rl =
    codes "<resource_limits><max_samples>"
    ++ fmt_limit rl.max_samples
    ++ codes "</max_samples><max_instances>"
    ++ fmt_limit rl.max_instances
    ++ codes "</max_instances><max_samples_per_instance>"
    ++ fmt_limit rl.max_samples_per_instance
    ++ codes "</max_samples_per_instance></resource_limits>"

unfoldable pub deadline_to_xml : Duration → Bytes
unfolding duration_to_xml
deadline_to_xml period =
    codes "<deadline><period>" ++ duration_to_xml period ++ codes "</period></deadline>"

unfoldable pub latency_budget_to_xml : Duration → Bytes
unfolding duration_to_xml
latency_budget_to_xml duration =
    codes "<latency_budget><duration>"
    ++ duration_to_xml duration
    ++ codes "</duration></latency_budget>"

unfoldable pub liveliness_to_xml : Liveliness → Bytes
unfolding duration_to_xml
liveliness_to_xml lv =
    codes "<liveliness><kind>"
    ++ liveliness_name lv.kind
    ++ codes "_LIVELINESS_QOS</kind><lease_duration>"
    ++ duration_to_xml lv.lease_duration
    ++ codes "</lease_duration></liveliness>"

unfoldable pub ownership_to_xml : OwnershipKind → Bytes
ownership_to_xml kind =
    codes "<ownership><kind>" ++ ownership_name kind ++ codes "_OWNERSHIP_QOS</kind></ownership>"

unfoldable pub ownership_strength_to_xml : Value → Bytes
ownership_strength_to_xml os =
    codes "<ownership_strength><value>" ++ os.printed ++ codes "</value></ownership_strength>"

unfoldable pub transport_priority_to_xml : Value → Bytes
transport_priority_to_xml v =
    if v.zero
    then []
    else codes "<transport_priority><value>" ++ v.printed ++ codes "</value></transport_priority>"

-- `xml += …` for one policy after the other, until one throws.
unfoldable pub append_all : List (Option Bytes) → Bytes
append_all [] = []
append_all (none ∷ rest) = []
append_all (some xml ∷ rest) = xml ++ append_all rest

abbrev pub printed_by : {A : Type 0} → (A → Bytes) → Option A → Option Bytes
printed_by print none = none
printed_by print (some a) = some (print a)

-- A policy that is printed unless it has its default.
unfoldable pub unless_infinite : Duration → Bytes
unfolding deadline_to_xml
unless_infinite d = if d.infinite then [] else deadline_to_xml d

unfoldable pub unless_zero : Duration → Bytes
unfolding latency_budget_to_xml
unless_zero d = if d.zero then [] else latency_budget_to_xml d

unfoldable pub strength_unless_zero : Value → Bytes
unfolding ownership_strength_to_xml
strength_unless_zero v = if v.zero then [] else ownership_strength_to_xml v

-- `TransportPriority` in its own `try`.
unfoldable pub priority_of : Option Value → Bytes
unfolding transport_priority_to_xml
priority_of none = []
priority_of (some v) = transport_priority_to_xml v

-- The policies that the three kinds of QoS have in common, from `History` on.
abbrev pub shared_policies : Policies → List (Option Bytes)
shared_policies q =
    printed_by history_to_xml q.history
    ∷ printed_by resource_limits_to_xml q.resource_limits
    ∷ printed_by unless_infinite q.deadline
    ∷ printed_by unless_zero q.latency_budget
    ∷ printed_by liveliness_to_xml q.liveliness
    ∷ printed_by ownership_to_xml q.ownership
    ∷ []

unfoldable pub datawriter_qos_to_xml : Policies → Bytes
unfolding append_all
datawriter_qos_to_xml w =
    codes "<datawriter_qos>"
    ++ append_all (
        (printed_by reliability_to_xml w.reliability ∷ shared_policies w)
        ++ printed_by strength_unless_zero w.ownership_strength
          ∷ some (priority_of w.transport_priority)
          ∷ [])
    ++ codes "</datawriter_qos>"

unfoldable pub datareader_qos_to_xml : Policies → Bytes
unfolding append_all
datareader_qos_to_xml r =
    codes "<datareader_qos>"
    ++ append_all (printed_by reliability_to_xml r.reliability ∷ shared_policies r)
    ++ codes "</datareader_qos>"

unfoldable pub topic_qos_to_xml : Policies → Bytes
unfolding append_all
topic_qos_to_xml t =
    codes "<topic_qos>"
    ++ append_all (printed_by durability_to_xml t.durability ∷ shared_policies t)
    ++ codes "</topic_qos>"

abbrev pub base_name_of : Bytes → Bytes
base_name_of base_name =
    if is_empty base_name then [] else codes " base_name=\"" ++ base_name ++ codes "\""

unfoldable pub qos_pack_to_profile_xml : Bytes → Policies → Policies → Policies → Bytes → Bytes
unfolding datawriter_qos_to_xml datareader_qos_to_xml topic_qos_to_xml
qos_pack_to_profile_xml profile_name w r t base_name =
    codes "<qos_profile name=\""
    ++ profile_name
    ++ codes "\""
    ++ base_name_of base_name
    ++ codes ">"
    ++ datawriter_qos_to_xml w
    ++ datareader_qos_to_xml r
    ++ topic_qos_to_xml t
    ++ codes "</qos_profile>"
