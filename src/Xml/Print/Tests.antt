-- ===== src/Xml/Print/Tests.antt =====
-- The printed profile of sample QoS objects.
use connext_triad.Prelude.{true, false, none, some, ◌≡◌, refl}
use connext_triad.Xml.Text.{codes}
use connext_triad.Xml.Qos.{
  Duration, Reliability, reliable, transient_local, History, keep_last, ResourceLimits, Policies,
}
use connext_triad.Xml.Print.{
  durability_to_xml, history_to_xml, resource_limits_to_xml, unless_infinite, topic_qos_to_xml,
  qos_pack_to_profile_xml,
}
use connext_triad.Xml.Print.Nesting.{Balanced, PlainPolicies, PlainLimits}
use connext_triad.Xml.Print.Balanced.{qos_pack_to_profile_xml-Balanced}

abbrev one_second : Duration
one_second = record {
  infinite = false;
  zero = false;
  is_100ms = false;
  sec = codes "1";
  nanosec = codes "0";
}

abbrev endless : Duration
endless = record {
  infinite = true;
  zero = false;
  is_100ms = false;
  sec = codes "0";
  nanosec = codes "0";
}

abbrev limits : ResourceLimits
limits = record {
  max_samples = some (codes "64");
  max_instances = none;
  max_samples_per_instance = none;
}

abbrev sample_reliability : Reliability
sample_reliability = record { kind = reliable; max_blocking_time = some one_second }

abbrev sample_history : History
sample_history = record { kind = keep_last; depth = codes "10" }

abbrev sample : Policies
sample = record {
  reliability = some sample_reliability;
  durability = some transient_local;
  history = some sample_history;
  resource_limits = some limits;
  deadline = some endless;
  latency_budget = none;
  liveliness = none;
  ownership = none;
  ownership_strength = none;
  transport_priority = none;
}

limits_PlainLimits : PlainLimits limits
limits_PlainLimits = record { samples = refl; instances = tt; per_instance = tt }

sample_PlainPolicies : PlainPolicies sample
sample_PlainPolicies = record {
  reliability = (refl, refl);
  history = refl;
  limits = limits_PlainLimits;
  deadline = (refl, refl);
  budget = tt;
  liveliness = tt;
  strength = tt;
  priority = tt;
}

-- The deadline is infinite and left out; the latency budget throws and ends the list.
topic_of_sample :
    topic_qos_to_xml sample
    ≡ codes
        "<topic_qos><durability><kind>TRANSIENT_LOCAL_DURABILITY_QOS</kind></durability><history><kind>KEEP_LAST_HISTORY_QOS</kind><depth>10</depth></history><resource_limits><max_samples>64</max_samples><max_instances>LENGTH_UNLIMITED</max_instances><max_samples_per_instance>LENGTH_UNLIMITED</max_samples_per_instance></resource_limits></topic_qos>"
unfolding topic_qos_to_xml durability_to_xml history_to_xml resource_limits_to_xml unless_infinite
topic_of_sample = refl

qos_pack_to_profile_xml-Balanced_example : Balanced (
    qos_pack_to_profile_xml (codes "LowLatency") sample sample sample (codes "BuiltinQosLib::Base"))
qos_pack_to_profile_xml-Balanced_example =
    qos_pack_to_profile_xml-Balanced (codes "LowLatency") sample sample sample
      (codes "BuiltinQosLib::Base") refl refl sample_PlainPolicies sample_PlainPolicies
      sample_PlainPolicies
