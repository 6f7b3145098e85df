-- ===== src/Xml/Merge.antt =====
-- `merge_profile_into_library` of RtpDdsGateway/src/qos_xml_helpers.cpp.
pub mod Laws
pub mod Search
pub mod Rename
use connext_triad.Prelude.{
  ℕ, zero, suc, Bool, Option, none, some, List, [], ◌∷◌, ◌++◌, length, drop, if◌then◌else◌, ◌||◌,
  is_empty, ◌==◌, not,
}
use connext_triad.Xml.Text.{Bytes, bytes_eq, codes, cut}
use connext_triad.Xml.Scan.{
  Tag, find_tag, for_tags, name_of, find_quoted, library_tag, library_close, profile_tag,
  profile_close,
}

-- The opening tag after the value of its `name=` is replaced; as it was where the value is not
-- quoted. `before` and `from` are what `find("name=")` splits.
unfoldable pub replace_name : Bytes → Bytes → Bytes → Bytes
unfolding find_quoted
replace_name name before from = elim (find_quoted (drop 5 from)) [
  | none ↦ before ++ from
  | some q ↦ before ++ codes "name=" ++ q.head ++ name ++ q.tail
]

-- The name is put behind `<qos_profile`.
unfoldable pub insert_name : Bytes → Bytes → Bytes
insert_name name opening =
    profile_tag ++ codes " name=\"" ++ name ++ codes "\"" ++ drop (length profile_tag) opening

unfoldable pub rename : Bytes → Bytes → Bytes
unfolding replace_name insert_name
rename name opening = elim (cut (codes "name=") opening) [
  | none ↦ insert_name name opening
  | some (before, from) ↦ replace_name name before from
]

-- `normalized_profile`, if the text has an opening tag of a profile.
unfoldable pub normalize_profile : Bytes → Bytes → Option Bytes
unfolding find_tag rename
normalize_profile profile_name profile_xml = elim (find_tag profile_tag profile_xml) [
  | none ↦ none
  | some t ↦ some (t.before ++ rename profile_name t.opening ++ t.after)
]

-- The text before `lib_block_start`, the block, and the text from `lib_block_end` on.
pub record Block : Type 0 where
  pub head : Bytes
  pub block : Bytes
  pub tail : Bytes

abbrev pub extend : Bytes → Option Block → Option Block
extend text none = none
extend text (some b) = some (record b { head = text ++ b.head })

abbrev pub close_block : Bytes → Option (Bytes × Bytes) → Option Block → Option Block
close_block head none later = later
close_block head (some (block, tail)) later =
    some (record { head = head; block = block; tail = tail })

-- A round of the loop over the libraries: `later` is what is found behind a library of another
-- name, or behind one that is not closed.
unfoldable pub library_round : Bytes → Tag → Option Block → Option Block
unfolding name_of
library_round library_name t later =
    if is_empty (name_of t.opening) || not (name_of t.opening == library_name)
    then extend (t.before ++ t.opening) later
    else close_block (t.before ++ t.opening) (cut library_close t.after)
        (extend (t.before ++ t.opening) later)

unfoldable pub find_library : Bytes → Bytes → Option Block
unfolding for_tags library_round
find_library library_name = for_tags library_tag none (library_round library_name)

-- The text before and after the profile that is replaced.
pub record Gap : Type 0 where
  pub head : Bytes
  pub old : Bytes
  pub tail : Bytes

abbrev pub extend_gap : Bytes → Option Gap → Option Gap
extend_gap text none = none
extend_gap text (some g) = some (record g { head = text ++ g.head })

-- `found_prof_start` and `found_prof_end` for a profile that is closed.
unfoldable pub profile_gap : Tag → Option Gap
profile_gap t = elim (cut profile_close t.after) [
  | none ↦ none
  | some (inner, from) ↦ some (record {
    head = t.before;
    old = t.opening ++ inner ++ profile_close;
    tail = drop (length profile_close) from;
  })
]

-- A round of the loop over the profiles of the block, which ends at the first of that name.
unfoldable pub profile_round : Bytes → Tag → Option Gap → Option Gap
unfolding name_of profile_gap
profile_round profile_name t later =
    if name_of t.opening == profile_name
    then profile_gap t
    else extend_gap (t.before ++ t.opening) later

unfoldable pub find_profile : Bytes → Bytes → Option Gap
unfolding for_tags profile_round
find_profile profile_name = for_tags profile_tag none (profile_round profile_name)

-- `"  " + normalized_profile + "\n"`
abbrev pub indented : Bytes → Bytes
indented profile = codes "  " ++ profile ++ 10 ∷ []

-- The profile in the place of the old one, or at the end of the block.
unfoldable pub place_profile : Bytes → Block → Option Gap → Bytes
place_profile profile b none = b.head ++ b.block ++ indented profile ++ b.tail
place_profile profile b (some g) = b.head ++ g.head ++ indented profile ++ g.tail ++ b.tail

unfoldable pub merge_normalized : Bytes → Bytes → Bytes → Bytes → Bytes
unfolding find_library find_profile place_profile
merge_normalized lib_xml library_name profile_name profile =
    elim (find_library library_name lib_xml) [
      | none ↦ []
      | some b ↦ place_profile profile b (find_profile profile_name b.block)
    ]

-- Empty where the profile has no opening tag or there is no such library.
unfoldable pub merge_profile_into_library : Bytes → Bytes → Bytes → Bytes → Bytes
unfolding normalize_profile merge_normalized
merge_profile_into_library lib_xml library_name profile_name profile_xml =
    elim (normalize_profile profile_name profile_xml) [
      | none ↦ []
      | some profile ↦ merge_normalized lib_xml library_name profile_name profile
    ]
