-- ===== src/Xml/Merge/Laws.antt =====
-- What merging makes of a library, and where it fails.
use connext_triad.Prelude.{Option, none, some, [], ◌++◌, length, drop, ◌≡◌}
use connext_triad.Xml.Text.{Bytes, cut}
use connext_triad.Xml.Scan.{Tag, find_tag, library_tag, library_close, profile_tag, profile_close}
use connext_triad.Xml.Merge.{Gap, rename, indented}
use connext_triad.Xml.Merge.Search.{Search, is_library, is_profile}

-- What becomes of the text of a library between its opening and its closing tag.
pub data Placed (profile_name profile block : Bytes) : Bytes → Type 0 where
  first_of_name :
      Search profile_tag (is_profile profile_name) block none
      → Placed profile_name profile block (block ++ indented profile)
  not_closed :
      (head : Bytes) (t : Tag)
      → Search profile_tag (is_profile profile_name) block (some (head, t))
      → cut profile_close t.after ≡ none
      → Placed profile_name profile block (block ++ indented profile)
  replaced :
      (head : Bytes) (t : Tag) (inner from : Bytes)
      → Search profile_tag (is_profile profile_name) block (some (head, t))
      → cut profile_close t.after ≡ some (inner, from)
      → Placed profile_name profile block
          (head ++ (indented profile ++ drop (length profile_close) from))

-- How a merge ends.
pub data Merged (lib_xml library_name profile_name profile_xml merged : Bytes) : Type 0 where
  no_profile_tag :
      find_tag profile_tag profile_xml ≡ none
      → merged ≡ []
      → Merged lib_xml library_name profile_name profile_xml merged
  no_library :
      Search library_tag (is_library library_name) lib_xml none
      → merged ≡ []
      → Merged lib_xml library_name profile_name profile_xml merged
  in_library :
      (p : Tag) (head : Bytes) (t : Tag) (block tail placed : Bytes)
      → find_tag profile_tag profile_xml ≡ some p
      → Search library_tag (is_library library_name) lib_xml (some (head, t))
      → lib_xml ≡ head ++ (t.opening ++ (block ++ tail))
      → cut library_close t.after ≡ some (block, tail)
      → Placed profile_name (p.before ++ rename profile_name p.opening ++ p.after) block placed
      → merged ≡ head ++ (t.opening ++ (placed ++ tail))
      → Merged lib_xml library_name profile_name profile_xml merged

-- The text that is put in the place of the block.
abbrev placed_text : Bytes → Bytes → Option Gap → Bytes
placed_text profile block none = block ++ indented profile
placed_text profile block (some g) = g.head ++ (indented profile ++ g.tail)
