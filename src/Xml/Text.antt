-- ===== src/Xml/Text.antt =====
-- A `std::string` as the list of its bytes. A position in a text is kept as the text before it and
-- the text from it on: `find` from a position splits the second of these.
pub mod Laws
use connext_triad.Prelude.{
  ℕ, String, Bool, true, false, Option, none, some, List, [], ◌∷◌, ◌++◌, nat_beq, if◌then◌else◌,
  ◌&&◌, ◌≡◌, refl, ap, arith, HasEq, ◌↔◌,
}
use Prim.Native.Char.{code}

abbrev pub Bytes : Type 0
Bytes = List ℕ

-- The bytes of an ASCII literal.
abbrev pub codes : String → Bytes
codes String.[] = []
codes (String.◌∷◌ c s) = code c ∷ codes s

abbrev pub bytes_beq : Bytes → Bytes → Bool
bytes_beq [] [] = true
bytes_beq [] (d ∷ t) = false
bytes_beq (c ∷ s) [] = false
bytes_beq (c ∷ s) (d ∷ t) = nat_beq c d && bytes_beq s t

pub bytes_beq_iff : (s t : Bytes) → (bytes_beq s t ≡ true) ↔ (s ≡ t)
bytes_beq_iff [] [] = ground arith
bytes_beq_iff [] (d ∷ t) = ground arith
bytes_beq_iff (c ∷ s) [] = ground arith
bytes_beq_iff (c ∷ s) (d ∷ t) = ground (arith, bytes_beq_iff s t)

instance abbrev pub bytes_eq : HasEq Bytes
bytes_eq = record { same = bytes_beq; same_iff = bytes_beq_iff }

-- `text` begins with `pattern`.
unfoldable pub starts_with : Bytes → Bytes → Bool
starts_with [] text = true
starts_with (p ∷ pattern) [] = false
starts_with (p ∷ pattern) (c ∷ text) = nat_beq p c && starts_with pattern text

abbrev pub push : ℕ → Option (Bytes × Bytes) → Option (Bytes × Bytes)
push c none = none
push c (some (before, from)) = some (c ∷ before, from)

abbrev pub push_byte : ℕ → Option (Bytes × ℕ × Bytes) → Option (Bytes × ℕ × Bytes)
push_byte c none = none
push_byte c (some (before, d, after)) = some (c ∷ before, d, after)

-- `find(pattern)`: the text before the first match, and the text from there on.
unfoldable pub cut : Bytes → Bytes → Option (Bytes × Bytes)
unfolding starts_with
cut pattern [] = if starts_with pattern [] then some ([], []) else none
cut pattern (c ∷ text) =
    let later = cut pattern text in
    if starts_with pattern (c ∷ text) then some ([], c ∷ text) else push c later

-- `find(c)` and `find_first_of(set)`: the byte that is found stands between.
unfoldable pub cut_byte : (ℕ → Bool) → Bytes → Option (Bytes × ℕ × Bytes)
cut_byte p [] = none
cut_byte p (c ∷ text) =
    let later = cut_byte p text in
    if p c
    then some ([], c, text)
    else elim later [ none ↦ none | some (before, d, after) ↦ some (c ∷ before, d, after) ]

-- Where a match is found, the two parts make up the text, and the second begins with the pattern.
abbrev pub IsCut : Bytes → Bytes → Option (Bytes × Bytes) → Type 0
IsCut pattern text none = Unit {0}
IsCut pattern text (some (before, from)) =
    (text ≡ before ++ from) × (starts_with pattern from ≡ true)

push-IsCut :
    (pattern text : Bytes) (c : ℕ) (o : Option (Bytes × Bytes))
    → IsCut pattern text o
    → IsCut pattern (c ∷ text) (push c o)
push-IsCut pattern text c none h = tt
push-IsCut pattern text c (some (before, from)) (e, b) = (ap (◌∷◌ c) e, b)

test-IsCut :
    (pattern text : Bytes) (b : Bool) (o : Option (Bytes × Bytes))
    → starts_with pattern text ≡ b
    → IsCut pattern text o
    → IsCut pattern text (if b then some ([], text) else o)
test-IsCut pattern text true o e h = (refl, e)
test-IsCut pattern text false o e h = h

pub cut-IsCut : (pattern text : Bytes) → IsCut pattern text (cut pattern text)
unfolding cut
cut-IsCut pattern [] = test-IsCut pattern [] _ none refl tt
cut-IsCut pattern (c ∷ text) =
    test-IsCut pattern (c ∷ text) _ _ refl
      (push-IsCut pattern text c (cut pattern text) (cut-IsCut pattern text))

abbrev pub IsCutByte : (ℕ → Bool) → Bytes → Option (Bytes × ℕ × Bytes) → Type 0
IsCutByte p text none = Unit {0}
IsCutByte p text (some (before, c, after)) = (text ≡ before ++ c ∷ after) × (p c ≡ true)

pub cut_byte-IsCutByte : (p : ℕ → Bool) (text : Bytes) → IsCutByte p text (cut_byte p text)
unfolding cut_byte
cut_byte-IsCutByte p [] = tt
cut_byte-IsCutByte p (c ∷ text) = by_test (p c) refl (cut_byte p text) (cut_byte-IsCutByte p text)
  where
    by_test :
        (b : Bool)
        → p c ≡ b
        → (o : Option (Bytes × ℕ × Bytes)) → IsCutByte p text o
        → IsCutByte p (c ∷ text) (if b then some ([], c, text) else push_byte c o)
    by_test true e o h = (refl, e)
    by_test false e none h = tt
    by_test false e (some (before, d, after)) (h, q) = (ap (◌∷◌ c) h, q)
