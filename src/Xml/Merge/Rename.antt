-- ===== src/Xml/Merge/Rename.antt =====
-- The name of the profile that is merged.
use connext_triad.Prelude.{
  ℕ, true, false, Option, none, some, [], ◌∷◌, ◌++◌, drop, ◌≡◌, any, nat_beq, ◌⊎◌,
}
use connext_triad.Xml.Text.{Bytes, codes, cut}
use connext_triad.Xml.Scan.{Quoted, find_quoted, is_quote}

-- An attribute `name`, that is with a space in front, whose quoted value is the given one.
abbrev pub HasName : Bytes → Bytes → Type 0
HasName name opening =
    (before : Bytes) × (head : Bytes) × (quote : ℕ) × (c : ℕ) × (tail : Bytes) × (opening
      ≡ before ++ (codes " name=" ++ (head ++ quote ∷ (name ++ c ∷ tail))))
    × (any is_quote head ≡ false)
    × (is_quote quote ≡ true)
    × (nat_beq quote c ≡ true)

-- The opening tag of a profile that has no `name=`, or whose first one is an attribute of that name
-- with a quoted value, and not the end of another attribute's name, as in `base_name=`.
abbrev pub IsNamed : Bytes → Type 0
IsNamed opening =
    (cut (codes "name=") opening ≡ none)
    ⊎ ((before : Bytes) × (from : Bytes) × (q : Quoted) × (cut (codes "name=") opening
          ≡ some (before ++ 32 ∷ [], from))
        × (find_quoted (drop 5 from) ≡ some q))

-- What a value that is found is made of.
abbrev IsQuoted : Option Quoted → Type 0
IsQuoted none = Unit {0}
IsQuoted (some q) =
    (head : Bytes) × (quote : ℕ) × (c : ℕ) × (tail : Bytes) × (q.head ≡ head ++ quote ∷ [])
    × (q.tail ≡ c ∷ tail)
    × (any is_quote head ≡ false)
    × (is_quote quote ≡ true)
    × (nat_beq quote c ≡ true)
