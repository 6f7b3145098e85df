-- ===== src/Xml/Extract.antt =====
-- `extract_profile_xml_from_content` of RtpDdsGateway/src/qos_xml_helpers.cpp.
use connext_triad.Prelude.{Bool, Option, none, some, [], ◌++◌, if◌then◌else◌, ◌||◌, is_some}
use connext_triad.Xml.Text.{Bytes, codes, cut}
use connext_triad.Xml.Scan.{Tag, for_tags, library_tag, library_close, profile_tag, profile_close}

-- The opening tag has `name="…"` or `name='…'` with this name.
unfoldable pub has_name : Bytes → Bytes → Bool
has_name name opening =
    is_some (cut (codes "name=\"" ++ name ++ codes "\"") opening)
    || is_some (cut (codes "name='" ++ name ++ codes "'") opening)

-- From the profile's tag up to and with its closing tag, if it is closed.
unfoldable pub whole_profile : Tag → Option Bytes
whole_profile t = elim (cut profile_close t.after) [
  | none ↦ none
  | some (inner, rest) ↦ some (t.opening ++ inner ++ profile_close)
]

-- The inner loop, which returns the profile's text, or ends.
unfoldable pub extract_from_block : Bytes → Bytes → Option Bytes
unfolding for_tags has_name whole_profile
extract_from_block profile =
    for_tags profile_tag none
      (λ t later. if has_name profile t.opening then whole_profile t else later)

-- A round of the outer loop.
unfoldable pub extract_from_library : Bytes → Bytes → Tag → Bytes → Bytes
unfolding has_name extract_from_block
extract_from_library lib profile t later =
    if has_name lib t.opening
    then elim (cut library_close t.after) [
      | none ↦ []
      | some (block, rest) ↦ elim (extract_from_block profile block) [
        | none ↦ later
        | some xml ↦ xml
      ]
    ]
    else later

-- Empty where there is no such profile.
unfoldable pub extract_profile_xml_from_content : Bytes → Bytes → Bytes → Bytes
unfolding for_tags extract_from_library
extract_profile_xml_from_content content lib profile =
    for_tags library_tag [] (extract_from_library lib profile) content
