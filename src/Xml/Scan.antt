-- ===== src/Xml/Scan.antt =====
-- The scanners of RtpDdsGateway/src/qos_xml_helpers.cpp: the name in an opening tag, the profiles
-- of a file and the text of one profile. A loop's fuel is the length of the text that it scans.
pub mod Laws
use connext_triad.Prelude.{
  ℕ, zero, suc, Bool, Option, none, some, List, [], ◌∷◌, ◌++◌, length, drop, nat_beq, if◌then◌else◌,
  ◌||◌, is_empty,
}
use connext_triad.Xml.Text.{Bytes, bytes_eq, codes, cut, cut_byte}

abbrev pub is_quote : ℕ → Bool
is_quote c = nat_beq c 34 || nat_beq c 39

-- What an opening tag and the rest of the text are made of: a tag that is found, up to and with its
-- `>`, the text before the tag, and the text after it.
pub record Tag : Type 0 where
  pub before : Bytes
  pub opening : Bytes
  pub after : Bytes

abbrev pub close_tag : Bytes → Option (Bytes × ℕ × Bytes) → Option Tag
close_tag before none = none
close_tag before (some (opening, c, after)) =
    some (record { before = before; opening = opening ++ c ∷ []; after = after })

-- `find(tag, …)` and then `find('>', …)`.
unfoldable pub find_tag : Bytes → Bytes → Option Tag
find_tag tag text = elim (cut tag text) [
  | none ↦ none
  | some (before, from) ↦ close_tag before (cut_byte (nat_beq 62) from)
]

-- The loop of every scanner below: `while (true)`, the next tag from the search position on, `break`
-- where there is none or its `>` is missing. `body` is given the result of the rest of the loop,
-- from behind the tag on, and takes it or ends the loop. The fuel is the length of the text.
unfoldable pub scan : {A : Type 0} → ℕ → Bytes → A → (Tag → A → A) → Bytes → A
scan zero tag done body text = done
scan (suc fuel) tag done body text = elim (find_tag tag text) [
  | none ↦ done
  | some t ↦ body t (scan fuel tag done body t.after)
]

unfoldable pub for_tags : {A : Type 0} → Bytes → A → (Tag → A → A) → Bytes → A
unfolding scan
for_tags tag done body text = scan (length text) tag done body text

-- A quoted value: the text up to and with the opening quote, the value, the text from the closing
-- quote on.
pub record Quoted : Type 0 where
  pub head : Bytes
  pub value : Bytes
  pub tail : Bytes

abbrev pub close_quote : Bytes → ℕ → Option (Bytes × ℕ × Bytes) → Option Quoted
close_quote head quote none = none
close_quote head quote (some (value, c, rest)) =
    some (record { head = head ++ quote ∷ []; value = value; tail = c ∷ rest })

unfoldable pub find_quoted : Bytes → Option Quoted
find_quoted text = elim (cut_byte is_quote text) [
  | none ↦ none
  | some (head, quote, rest) ↦ close_quote head quote (cut_byte (nat_beq quote) rest)
]

-- `opening.find("name=")` and the value after it, empty where there is none.
unfoldable pub name_of : Bytes → Bytes
unfolding find_quoted
name_of opening = elim (cut (codes "name=") opening) [
  | none ↦ []
  | some (before, from) ↦ elim (find_quoted (drop 5 from)) [ none ↦ [] | some q ↦ q.value ]
]

abbrev pub library_tag : Bytes
library_tag = codes "<qos_library"

abbrev pub library_close : Bytes
library_close = codes "</qos_library>"

abbrev pub profile_tag : Bytes
profile_tag = codes "<qos_profile"

abbrev pub profile_close : Bytes
profile_close = codes "</qos_profile>"

-- The inner loop of `parse_profiles_from_file`, on a library's block.
unfoldable pub block_profiles : Bytes → Bytes → List (Bytes × Bytes)
unfolding name_of
block_profiles lib_name = for_tags profile_tag [] (λ t later.
    if is_empty (name_of t.opening) then later else (lib_name, name_of t.opening) ∷ later)

-- A round of the outer loop: a library without a name is passed over, one that is not closed ends
-- the loop.
unfoldable pub library_profiles : Tag → List (Bytes × Bytes) → List (Bytes × Bytes)
unfolding block_profiles name_of
library_profiles t later =
    if is_empty (name_of t.opening) then later else elim (cut library_close t.after) [
      | none ↦ []
      | some (block, rest) ↦ block_profiles (name_of t.opening) block ++ later
    ]

-- `parse_profiles_from_file`: the content of the file, `none` where it cannot be opened.
unfoldable pub parse_profiles_from_file : Option Bytes → List (Bytes × Bytes)
unfolding for_tags library_profiles
parse_profiles_from_file none = []
parse_profiles_from_file (some content) = for_tags library_tag [] library_profiles content
