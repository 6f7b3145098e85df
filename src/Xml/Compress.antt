-- ===== src/Xml/Compress.antt =====
-- `compress_xml` of RtpDdsGateway/src/qos_xml_helpers.cpp.
pub mod Laws
use connext_triad.Prelude.{ℕ, Bool, true, false, List, [], ◌∷◌, nat_beq, if◌then◌else◌, ◌||◌}
use connext_triad.Xml.Text.{Bytes}

-- The variables of the loop.
pub record Scanner : Type 0 where
  pub in_tag : Bool
  pub in_content : Bool
  pub prev_was_space : Bool

abbrev pub is_break : ℕ → Bool
is_break c = nat_beq c 10 || nat_beq c 13 || nat_beq c 9

abbrev pub is_space : ℕ → Bool
is_space c = nat_beq c 32

-- What a round of the loop does with its byte.
pub data Emit : Type 0 where
  skip : Emit
  keep : Scanner → Emit

unfoldable pub in_tag_step : Scanner → ℕ → Emit
in_tag_step v c =
    if is_space c
    then (if v.prev_was_space then skip else keep (record v { prev_was_space = true }))
    else keep (record v { prev_was_space = false })

-- A round of the loop that skips its byte leaves the variables as they are.
unfoldable pub step : Scanner → ℕ → Emit
unfolding in_tag_step
step v c =
    if is_break c
    then skip
    else if nat_beq c 60
    then keep (record { in_tag = true; in_content = false; prev_was_space = false })
    else if nat_beq c 62
    then keep (record { in_tag = false; in_content = true; prev_was_space = false })
    else if v.in_tag
    then in_tag_step v c
    else if v.in_content
    then (if is_space c then skip else keep v)
    else keep v

-- The rest of the loop.
unfoldable pub compress_from : Scanner → Bytes → Bytes
compress_from v [] = []
compress_from v (c ∷ xml) = elim (step v c) [
  | skip ↦ compress_from v xml
  | keep v' ↦ c ∷ compress_from v' xml
]

unfoldable pub compress_xml : Bytes → Bytes
unfolding compress_from
compress_xml xml =
    compress_from (record { in_tag = false; in_content = false; prev_was_space = false }) xml
