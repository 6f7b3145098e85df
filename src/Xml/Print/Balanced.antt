-- ===== src/Xml/Print/Balanced.antt =====
-- The printed profile is well nested.
use connext_triad.Prelude.{
  List, ◌∷◌, [], ◌++◌, Bool, true, false, Option, none, some, All, ◌≡◌, refl, append_assoc, ◌&&◌,
}
use connext_triad.Xml.Text.{Bytes, codes}
use connext_triad.Xml.Qos.{Duration, Value, Policies}
use connext_triad.Xml.Print.{
  reliability_to_xml, durability_to_xml, append_all, printed_by, unless_infinite, unless_zero,
  strength_unless_zero, priority_of, shared_policies, datawriter_qos_to_xml, datareader_qos_to_xml,
  topic_qos_to_xml, base_name_of, qos_pack_to_profile_xml,
}
use connext_triad.Xml.Print.Nesting.{
  Plain, is_plain, Balanced, element, both, regrouped, PlainDuration, IfSome, PlainPolicies, tag,
  nothing,
}
use connext_triad.Xml.Print.Elements.{
  reliability_to_xml-Balanced, durability_to_xml-Balanced, history_to_xml-Balanced,
  resource_limits_to_xml-Balanced, deadline_to_xml-Balanced, latency_budget_to_xml-Balanced,
  liveliness_to_xml-Balanced, ownership_to_xml-Balanced, ownership_strength_to_xml-Balanced,
  skipped, priority_of-Balanced,
}

-- Every part that is printed is well nested.
abbrev PartBalanced : Option Bytes → Type 0
PartBalanced o = IfSome Balanced o

All-append :
    (l k : List (Option Bytes))
    → All PartBalanced l
    → All PartBalanced k
    → All PartBalanced (l ++ k)
All-append [] k p q = q
All-append (x ∷ l) k (h, p) q = (h, All-append l k p q)

append_all-Balanced : (l : List (Option Bytes)) → All PartBalanced l → Balanced (append_all l)
unfolding append_all
append_all-Balanced [] p = nothing
append_all-Balanced (none ∷ rest) p = nothing
append_all-Balanced (some xml ∷ rest) (t, p) = both xml _ t (append_all-Balanced rest p)

printed_by-Balanced :
    {A : Type 0} {P : A → Type 0} (print : A → Bytes) (o : Option A)
    → ((a : A) → P a → Balanced (print a))
    → IfSome P o
    → PartBalanced (printed_by print o)
printed_by-Balanced print none t p = tt
printed_by-Balanced print (some a) t p = t a p

unless_infinite-Balanced : (d : Duration) → PlainDuration d → Balanced (unless_infinite d)
unfolding unless_infinite
unless_infinite-Balanced d p = skipped d.infinite _ (deadline_to_xml-Balanced d p)

unless_zero-Balanced : (d : Duration) → PlainDuration d → Balanced (unless_zero d)
unfolding unless_zero
unless_zero-Balanced d p = skipped d.zero _ (latency_budget_to_xml-Balanced d p)

strength_unless_zero-Balanced : (v : Value) → Plain v.printed → Balanced (strength_unless_zero v)
unfolding strength_unless_zero
strength_unless_zero-Balanced v p = skipped v.zero _ (ownership_strength_to_xml-Balanced v p)

always : {A : Type 0} (o : Option A) → IfSome (λ a. Unit) o
always none = tt
always (some a) = tt

shared_policies-Balanced : (q : Policies) → PlainPolicies q → All PartBalanced (shared_policies q)
shared_policies-Balanced q p = (
  printed_by-Balanced _ q.history history_to_xml-Balanced p.history,
  (
    printed_by-Balanced _ q.resource_limits resource_limits_to_xml-Balanced p.limits,
    (
      printed_by-Balanced _ q.deadline unless_infinite-Balanced p.deadline,
      (
        printed_by-Balanced _ q.latency_budget unless_zero-Balanced p.budget,
        (
          printed_by-Balanced _ q.liveliness liveliness_to_xml-Balanced p.liveliness,
          (
            printed_by-Balanced _ q.ownership (λ k. λ u. ownership_to_xml-Balanced k)
                (always q.ownership),
            tt,
          ),
        ),
      ),
    ),
  ),
)

reliable_first :
    (q : Policies) → PlainPolicies q → PartBalanced (printed_by reliability_to_xml q.reliability)
reliable_first q p = printed_by-Balanced _ q.reliability reliability_to_xml-Balanced p.reliability

datawriter_qos_to_xml-Balanced :
    (w : Policies) → PlainPolicies w → Balanced (datawriter_qos_to_xml w)
unfolding datawriter_qos_to_xml
datawriter_qos_to_xml-Balanced w p =
    regrouped
      (tag (codes "datawriter_qos") _ refl (
        append_all-Balanced (first ++ last) (
          All-append first last (reliable_first w p, shared_policies-Balanced w p)
            (
              printed_by-Balanced _ w.ownership_strength strength_unless_zero-Balanced p.strength,
              (priority_of-Balanced w.transport_priority p.priority, tt),
            ))))
      (simp append_assoc)
  where
    first : List (Option Bytes)
    first = printed_by reliability_to_xml w.reliability ∷ shared_policies w

    last : List (Option Bytes)
    last =
        printed_by strength_unless_zero w.ownership_strength
        ∷ some (priority_of w.transport_priority)
        ∷ []

datareader_qos_to_xml-Balanced :
    (r : Policies) → PlainPolicies r → Balanced (datareader_qos_to_xml r)
unfolding datareader_qos_to_xml
datareader_qos_to_xml-Balanced r p =
    regrouped
      (tag (codes "datareader_qos") _ refl (
        append_all-Balanced (printed_by reliability_to_xml r.reliability ∷ shared_policies r)
          (reliable_first r p, shared_policies-Balanced r p)))
      (simp append_assoc)

topic_qos_to_xml-Balanced : (t : Policies) → PlainPolicies t → Balanced (topic_qos_to_xml t)
unfolding topic_qos_to_xml
topic_qos_to_xml-Balanced t p =
    regrouped
      (tag (codes "topic_qos") _ refl (
        append_all-Balanced (printed_by durability_to_xml t.durability ∷ shared_policies t) (
          printed_by-Balanced _ t.durability (λ k. λ u. durability_to_xml-Balanced k)
              (always t.durability),
          shared_policies-Balanced t p,
        )))
      (simp append_assoc)

and_right : (b x y : Bool) → b && x ≡ true → (x ≡ true → y ≡ true) → b && y ≡ true
and_right true x y p f = f p
and_right false x y p f = p

Plain-append : (a b : Bytes) → Plain a → Plain b → Plain (a ++ b)
Plain-append [] b p q = q
Plain-append (c ∷ a) b p q = and_right _ (is_plain a) _ p (λ h. Plain-append a b h q)

base_name_of-Plain : (base_name : Bytes) → Plain base_name → Plain (base_name_of base_name)
base_name_of-Plain [] p = refl
base_name_of-Plain (c ∷ s) p = Plain-append (c ∷ s) (codes "\"") p refl

-- The profile that is printed for a writer's, a reader's and a topic's QoS is well nested: every
-- element that is opened is closed, in order, whichever policies the QoS has, whichever of them
-- throws and whichever is left out for its default. The names of the profile and of its base and
-- the printed numbers have no angle bracket.
pub qos_pack_to_profile_xml-Balanced :
    (profile_name : Bytes) (w r t : Policies) (base_name : Bytes)
    → Plain profile_name
    → Plain base_name
    → PlainPolicies w
    → PlainPolicies r
    → PlainPolicies t
    → Balanced (qos_pack_to_profile_xml profile_name w r t base_name)
unfolding qos_pack_to_profile_xml
qos_pack_to_profile_xml-Balanced profile_name w r t base_name n b pw pr pt =
    regrouped
      (element (codes "qos_profile")
        (codes " name=\"" ++ (profile_name ++ (codes "\"" ++ base_name_of base_name))) _ refl
        (Plain-append profile_name (codes "\"" ++ base_name_of base_name) n
          (base_name_of-Plain base_name b))
        (both _ _ (datawriter_qos_to_xml-Balanced w pw)
          (both _ _ (datareader_qos_to_xml-Balanced r pr) (topic_qos_to_xml-Balanced t pt))))
      (simp append_assoc)
