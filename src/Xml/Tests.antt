-- ===== src/Xml/Tests.antt =====
-- The scanners on small texts.
use connext_triad.Prelude.{some, List, [], ◌∷◌, ◌≡◌, refl}
use connext_triad.Xml.Text.{Bytes, codes, cut, cut_byte, starts_with}
use connext_triad.Xml.Compress.{compress_xml, compress_from, step, in_tag_step}
use connext_triad.Xml.Compress.Laws.{staying, without_blanks, compress_xml-keeps}
use connext_triad.Xml.Scan.{
  Tag, for_tags, scan, find_tag, name_of, find_quoted, parse_profiles_from_file, library_profiles,
  block_profiles,
}
use connext_triad.Xml.Extract.{
  extract_profile_xml_from_content, extract_from_library, extract_from_block, has_name,
  whole_profile,
}
use connext_triad.Xml.Merge.{
  merge_profile_into_library, normalize_profile, rename, replace_name, insert_name,
  merge_normalized, find_library, library_round, find_profile, profile_round, profile_gap,
  place_profile,
}

abbrev library : Bytes
library = codes "<qos_library name=\"L\"><qos_profile name='P'> <a/> </qos_profile></qos_library>"

compress_example : compress_xml (codes "<a  b=\"1\"\n > x y </a>") ≡ codes "<a b=\"1\" >xy</a>"
unfolding compress_xml compress_from step in_tag_step
compress_example = refl

compress_xml-keeps_example :
    (compress_xml library ≡ staying [] library)
    × (without_blanks (compress_xml library) ≡ without_blanks library)
    × (compress_xml (compress_xml library) ≡ compress_xml library)
compress_xml-keeps_example = compress_xml-keeps library

parse_example : parse_profiles_from_file (some library) ≡ (codes "L", codes "P") ∷ []
unfolding parse_profiles_from_file for_tags scan find_tag library_profiles block_profiles name_of
    find_quoted cut cut_byte starts_with
parse_example = refl

extract_example :
    extract_profile_xml_from_content library (codes "L") (codes "P")
    ≡ codes "<qos_profile name='P'> <a/> </qos_profile>"
unfolding extract_profile_xml_from_content for_tags scan find_tag extract_from_library
    extract_from_block has_name whole_profile cut cut_byte starts_with
extract_example = refl

merge_example :
    merge_profile_into_library library
      (codes "L")
      (codes "P")
      (codes "<qos_profile><b/></qos_profile>")
    ≡ codes "<qos_library name=\"L\">  <qos_profile name=\"P\"><b/></qos_profile>\n</qos_library>"
unfolding merge_profile_into_library normalize_profile rename replace_name insert_name
    merge_normalized find_library library_round find_profile profile_round profile_gap place_profile
    for_tags scan find_tag name_of find_quoted cut cut_byte starts_with
merge_example = refl

abbrev ends_with_first : Tag → List Bytes → List Bytes
ends_with_first t later = t.opening ∷ []

-- The base is renamed where it stands in front of the name.
base_is_renamed :
    rename (codes "Q") (codes "<qos_profile base_name=\"A\" name=\"P\">")
    ≡ codes "<qos_profile base_name=\"Q\" name=\"P\">"
unfolding rename replace_name find_quoted cut cut_byte starts_with
base_is_renamed = refl
