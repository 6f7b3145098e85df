-- ===== src/Xml/Print/Elements.antt =====
-- The printed policies are well nested.
use connext_triad.Prelude.{
  [], ◌++◌, Bool, true, false, Option, none, some, refl, append_assoc, if◌then◌else◌, Bool-cases,
  inl, inr,
}
use connext_triad.Xml.Text.{Bytes, codes}
use connext_triad.Xml.Qos.{
  Duration, Reliability, ReliabilityKind, reliable, best_effort, DurabilityKind, persistent,
  transient, transient_local, volatile, OwnershipKind, exclusive, shared, History, HistoryKind,
  keep_last, keep_all, LivelinessKind, manual_by_participant, manual_by_topic, automatic,
  Liveliness, ResourceLimits, Value,
}
use connext_triad.Xml.Print.{
  reliability_name, durability_name, ownership_name, history_name, liveliness_name, fmt_limit,
  duration_to_xml, blocking_time, reliability_to_xml, durability_to_xml, depth_of, history_to_xml,
  resource_limits_to_xml, deadline_to_xml, latency_budget_to_xml, liveliness_to_xml,
  ownership_to_xml, ownership_strength_to_xml, transport_priority_to_xml, priority_of,
}
use connext_triad.Xml.Print.Nesting.{
  Plain, Balanced, plain, both, regrouped, PlainDuration, IfSome, PlainLimits, tag, nothing,
}

pub duration_to_xml-Balanced : (d : Duration) → PlainDuration d → Balanced (duration_to_xml d)
unfolding duration_to_xml
duration_to_xml-Balanced d p = elim (Bool-cases d.infinite) [
  | inl e ↦ rw e (
      both _ _ (tag (codes "sec") _ refl (plain (codes "DURATION_INFINITE_SEC") refl))
        (tag (codes "nanosec") _ refl (plain (codes "DURATION_INFINITE_NSEC") refl)))
  | inr e ↦ rw e (
      regrouped
        (both _ _ (tag (codes "sec") d.sec refl (plain d.sec p.0))
          (tag (codes "nanosec") d.nanosec refl (plain d.nanosec p.1)))
        (simp append_assoc))
]

pub blocking_time-Balanced :
    (o : Option Duration) → IfSome PlainDuration o → Balanced (blocking_time o)
unfolding blocking_time
blocking_time-Balanced none p = nothing
blocking_time-Balanced (some d) p = elim (Bool-cases d.is_100ms) [
  | inl e ↦ rw e nothing
  | inr e ↦ rw e (
      regrouped
        (tag (codes "max_blocking_time") (duration_to_xml d) refl (duration_to_xml-Balanced d p))
        (simp append_assoc))
]

reliability-Plain : (k : ReliabilityKind) → Plain (reliability_name k ++ codes "_RELIABILITY_QOS")
reliability-Plain reliable = refl
reliability-Plain best_effort = refl

pub reliability_to_xml-Balanced :
    (rel : Reliability)
    → IfSome PlainDuration rel.max_blocking_time
    → Balanced (reliability_to_xml rel)
unfolding reliability_to_xml
reliability_to_xml-Balanced rel p =
    regrouped
      (tag (codes "reliability") _ refl (
        both _ _
          (tag (codes "kind") (reliability_name rel.kind ++ codes "_RELIABILITY_QOS") refl
            (plain _ (reliability-Plain rel.kind)))
          (blocking_time-Balanced rel.max_blocking_time p)))
      (simp append_assoc)

pub durability_to_xml-Balanced : (k : DurabilityKind) → Balanced (durability_to_xml k)
unfolding durability_to_xml
durability_to_xml-Balanced k =
    regrouped
      (tag (codes "durability") _ refl (
        tag (codes "kind") (durability_name k ++ codes "_DURABILITY_QOS") refl (plain _ (named k))))
      (simp append_assoc)
  where
    named : (k : DurabilityKind) → Plain (durability_name k ++ codes "_DURABILITY_QOS")
    named persistent = refl
    named transient = refl
    named transient_local = refl
    named volatile = refl

pub depth_of-Balanced : (h : History) → Plain h.depth → Balanced (depth_of h)
unfolding depth_of
depth_of-Balanced h p = by_kind h.kind
  where
    by_kind :
        (k : HistoryKind)
        → Balanced
            (elim k [ keep_last ↦ codes "<depth>" ++ h.depth ++ codes "</depth>" | keep_all ↦ [] ])
    by_kind keep_last =
        regrouped (tag (codes "depth") h.depth refl (plain h.depth p)) (simp append_assoc)
    by_kind keep_all = nothing

pub history_to_xml-Balanced : (h : History) → Plain h.depth → Balanced (history_to_xml h)
unfolding history_to_xml
history_to_xml-Balanced h p =
    regrouped
      (tag (codes "history") _ refl (
        both _ _
          (tag (codes "kind") (history_name h.kind ++ codes "_HISTORY_QOS") refl
            (plain _ (named h.kind)))
          (depth_of-Balanced h p)))
      (simp append_assoc)
  where
    named : (k : HistoryKind) → Plain (history_name k ++ codes "_HISTORY_QOS")
    named keep_last = refl
    named keep_all = refl

pub fmt_limit-Balanced : (o : Option Bytes) → IfSome Plain o → Balanced (fmt_limit o)
fmt_limit-Balanced none p = plain _ refl
fmt_limit-Balanced (some v) p = plain v p

pub resource_limits_to_xml-Balanced :
    (rl : ResourceLimits) → PlainLimits rl → Balanced (resource_limits_to_xml rl)
unfolding resource_limits_to_xml
resource_limits_to_xml-Balanced rl p =
    regrouped
      (tag (codes "resource_limits") _ refl (
        both _ _
          (tag (codes "max_samples") (fmt_limit rl.max_samples) refl
            (fmt_limit-Balanced _ p.samples))
          (both _ _
            (tag (codes "max_instances") (fmt_limit rl.max_instances) refl
              (fmt_limit-Balanced _ p.instances))
            (tag (codes "max_samples_per_instance") (fmt_limit rl.max_samples_per_instance) refl
              (fmt_limit-Balanced _ p.per_instance)))))
      (simp append_assoc)

pub deadline_to_xml-Balanced : (d : Duration) → PlainDuration d → Balanced (deadline_to_xml d)
unfolding deadline_to_xml
deadline_to_xml-Balanced d p =
    regrouped
      (tag (codes "deadline") _ refl
        (tag (codes "period") (duration_to_xml d) refl (duration_to_xml-Balanced d p)))
      (simp append_assoc)

pub latency_budget_to_xml-Balanced :
    (d : Duration) → PlainDuration d → Balanced (latency_budget_to_xml d)
unfolding latency_budget_to_xml
latency_budget_to_xml-Balanced d p =
    regrouped
      (tag (codes "latency_budget") _ refl
        (tag (codes "duration") (duration_to_xml d) refl (duration_to_xml-Balanced d p)))
      (simp append_assoc)

pub liveliness_to_xml-Balanced :
    (lv : Liveliness) → PlainDuration lv.lease_duration → Balanced (liveliness_to_xml lv)
unfolding liveliness_to_xml
liveliness_to_xml-Balanced lv p =
    regrouped
      (tag (codes "liveliness") _ refl (
        both _ _
          (tag (codes "kind") (liveliness_name lv.kind ++ codes "_LIVELINESS_QOS") refl
            (plain _ (named lv.kind)))
          (tag (codes "lease_duration") (duration_to_xml lv.lease_duration) refl
            (duration_to_xml-Balanced lv.lease_duration p))))
      (simp append_assoc)
  where
    named : (k : LivelinessKind) → Plain (liveliness_name k ++ codes "_LIVELINESS_QOS")
    named manual_by_participant = refl
    named manual_by_topic = refl
    named automatic = refl

pub ownership_to_xml-Balanced : (k : OwnershipKind) → Balanced (ownership_to_xml k)
unfolding ownership_to_xml
ownership_to_xml-Balanced k =
    regrouped
      (tag (codes "ownership") _ refl
        (tag (codes "kind") (ownership_name k ++ codes "_OWNERSHIP_QOS") refl (plain _ (named k))))
      (simp append_assoc)
  where
    named : (k : OwnershipKind) → Plain (ownership_name k ++ codes "_OWNERSHIP_QOS")
    named exclusive = refl
    named shared = refl

pub ownership_strength_to_xml-Balanced :
    (v : Value) → Plain v.printed → Balanced (ownership_strength_to_xml v)
unfolding ownership_strength_to_xml
ownership_strength_to_xml-Balanced v p =
    regrouped
      (tag (codes "ownership_strength") _ refl
        (tag (codes "value") v.printed refl (plain v.printed p)))
      (simp append_assoc)

-- What is printed unless a value is the default.
pub skipped : (b : Bool) (s : Bytes) → Balanced s → Balanced (if b then [] else s)
skipped true s t = nothing
skipped false s t = t

pub priority_of-Balanced :
    (o : Option Value) → IfSome (λ v. Plain v.printed) o → Balanced (priority_of o)
unfolding priority_of transport_priority_to_xml
priority_of-Balanced none p = nothing
priority_of-Balanced (some v) p = skipped v.zero _ (
    regrouped
      (tag (codes "transport_priority") _ refl
        (tag (codes "value") v.printed refl (plain v.printed p)))
      (simp append_assoc))
