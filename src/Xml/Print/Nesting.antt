-- ===== src/Xml/Print/Nesting.antt =====
-- Well nested text, and policies whose numbers are plain text.
use connext_triad.Prelude.{
  ◌∷◌, [], ◌++◌, Bool, true, false, not, Option, none, some, ◌≡◌, refl, subst, nat_beq, ◌||◌, ◌&&◌,
}
use connext_triad.Xml.Text.{Bytes, codes}
use connext_triad.Xml.Qos.{Duration, ResourceLimits, Policies}

-- No `<` and no `>`.
abbrev pub is_plain : Bytes → Bool
is_plain [] = true
is_plain (c ∷ s) = not (nat_beq c 60 || nat_beq c 62) && is_plain s

abbrev pub Plain : Bytes → Type 0
Plain s = is_plain s ≡ true

-- A name of an element: no angle bracket, no space and no slash, and not empty.
abbrev pub is_name_text : Bytes → Bool
is_name_text [] = true
is_name_text (c ∷ s) =
    not (nat_beq c 60 || nat_beq c 62) && (not (nat_beq c 32 || nat_beq c 47) && is_name_text s)

abbrev pub is_name : Bytes → Bool
is_name [] = false
is_name (c ∷ s) = is_name_text (c ∷ s)

-- What stands between the name and `>`: nothing, or a space and text without angle brackets.
abbrev pub is_attributes : Bytes → Bool
is_attributes [] = true
is_attributes (c ∷ s) = nat_beq c 32 && is_plain s

-- Text without angle brackets, elements with their closing tags, and what follows one another.
pub data Balanced : Bytes → Type 0 where
  plain : (s : Bytes) → Plain s → Balanced s
  element :
      (name attributes body : Bytes)
      → is_name name ≡ true
      → is_attributes attributes ≡ true
      → Balanced body
      → Balanced (
          codes "<"
          ++ (name ++ (attributes ++ (codes ">" ++ (body ++ (codes "</" ++ (name ++ codes ">")))))))
  both : (a b : Bytes) → Balanced a → Balanced b → Balanced (a ++ b)

pub regrouped : {a b : Bytes} → Balanced a → a ≡ b → Balanced b
regrouped t e = subst Balanced e t

-- The printed numbers.
abbrev pub PlainDuration : Duration → Type 0
PlainDuration d = Plain d.sec × Plain d.nanosec

abbrev pub IfSome : {A : Type 0} → (A → Type 0) → Option A → Type 0
IfSome P none = Unit
IfSome P (some a) = P a

pub record PlainLimits (rl : ResourceLimits) : Type 0 where
  pub samples : IfSome Plain rl.max_samples
  pub instances : IfSome Plain rl.max_instances
  pub per_instance : IfSome Plain rl.max_samples_per_instance

pub record PlainPolicies (q : Policies) : Type 0 where
  pub reliability : IfSome (λ rel. IfSome PlainDuration rel.max_blocking_time) q.reliability
  pub history : IfSome (λ h. Plain h.depth) q.history
  pub limits : IfSome PlainLimits q.resource_limits
  pub deadline : IfSome PlainDuration q.deadline
  pub budget : IfSome PlainDuration q.latency_budget
  pub liveliness : IfSome (λ lv. PlainDuration lv.lease_duration) q.liveliness
  pub strength : IfSome (λ v. Plain v.printed) q.ownership_strength
  pub priority : IfSome (λ v. Plain v.printed) q.transport_priority

pub tag :
    (name body : Bytes)
    → is_name name ≡ true
    → Balanced body
    → Balanced (codes "<" ++ (name ++ (codes ">" ++ (body ++ (codes "</" ++ (name ++ codes ">"))))))
tag name body p b = element name [] body p refl b

pub nothing : Balanced []
nothing = plain [] refl
