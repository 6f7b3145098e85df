-- ===== src/Xml/Compress/Laws.antt =====
-- What compression keeps.
use connext_triad.Prelude.{
  ℕ, Bool, true, false, [], ◌∷◌, ◌≡◌, refl, ap, arith, ◌||◌, ◌&&◌, not, nat_beq, if◌then◌else◌,
}
use connext_triad.Xml.Text.{Bytes}
use connext_triad.Xml.Compress.{
  Scanner, is_break, is_space, Emit, skip, keep, step, in_tag_step, compress_from, compress_xml,
}

abbrev is_blank : ℕ → Bool
is_blank c = is_break c || is_space c

-- The bytes that are neither spaces, tabs nor line breaks.
abbrev pub without_blanks : Bytes → Bytes
without_blanks [] = []
without_blanks (c ∷ text) = let rest = without_blanks text in if is_blank c then rest else c ∷ rest

-- Only blanks are skipped.
step-skip : (v : Scanner) (c : ℕ) → step v c ≡ skip → is_blank c ≡ true
unfolding step in_tag_step
step-skip v c e = ground (arith, e)

without_blanks-compress_from :
    (v : Scanner) (xml : Bytes) → without_blanks (compress_from v xml) ≡ without_blanks xml
unfolding compress_from
without_blanks-compress_from v [] = refl
without_blanks-compress_from v (c ∷ xml) =
    by_step (step v c) refl (λ w. without_blanks-compress_from w xml)
  where
    by_step :
        (e : Emit)
        → step v c ≡ e
        → ((w : Scanner) → without_blanks (compress_from w xml) ≡ without_blanks xml)
        → without_blanks (elim e as (λ _. Bytes) [
          | skip ↦ compress_from v xml
          | keep v' ↦ c ∷ compress_from v' xml
        ])
          ≡ without_blanks (c ∷ xml)
    by_step skip h ih = ground (arith, step-skip v c h, ih v)
    by_step (keep v') h ih = ground (arith, ih v')

compress_from_idem :
    (v : Scanner) (xml : Bytes) → compress_from v (compress_from v xml) ≡ compress_from v xml
unfolding compress_from
compress_from_idem v [] = refl
compress_from_idem v (c ∷ xml) = by_step (step v c) refl (λ w. compress_from_idem w xml)
  where
    by_step :
        (e : Emit)
        → step v c ≡ e
        → ((w : Scanner) → compress_from w (compress_from w xml) ≡ compress_from w xml)
        → compress_from v (elim e as (λ _. Bytes) [
          | skip ↦ compress_from v xml
          | keep v' ↦ c ∷ compress_from v' xml
        ])
          ≡ (elim e as (λ _. Bytes) [
            | skip ↦ compress_from v xml
            | keep v' ↦ c ∷ compress_from v' xml
          ])
    by_step skip h ih = ih v
    by_step (keep v') h ih = rw (h, compress_from) (ap (◌∷◌ c) (ih v'))

-- Where a byte stands, by what was read before it, the last byte first: in front of all tags, in a
-- tag, or behind one.
pub data Region : Type 0 where
  in_front tag content : Region

abbrev pub region : Bytes → Region
region [] = in_front
region (c ∷ read) =
    let earlier = region read in
    if nat_beq c 60 then tag else if nat_beq c 62 then content else earlier

-- Whether the last byte that is no line break or tab is a space.
abbrev pub after_space : Bytes → Bool
after_space [] = false
after_space (c ∷ read) =
    let earlier = after_space read in if is_break c then earlier else is_space c

-- Whether a space stays: in front of all tags always, in a tag the first of each run, behind a tag never.
abbrev pub space_stays : Bytes → Bool
space_stays read = elim (region read) [
  | in_front ↦ true
  | tag ↦ not (after_space read)
  | content ↦ false
]

-- Line breaks and tabs go, spaces as above, and all else stays.
abbrev pub stays : Bytes → ℕ → Bool
stays read c = not (is_break c) && (not (is_space c) || space_stays read)

-- The bytes that stay, each judged by the text before it.
abbrev pub staying : Bytes → Bytes → Bytes
staying read [] = []
staying read (c ∷ xml) =
    let rest = staying (c ∷ read) xml in if stays read c then c ∷ rest else rest

abbrev is_tag : Region → Bool
is_tag in_front = false
is_tag tag = true
is_tag content = false

abbrev is_content : Region → Bool
is_content in_front = false
is_content tag = false
is_content content = true

-- The variables of the loop say where it is.
record Tracks (v : Scanner) (read : Bytes) : Type 0 where
  in_tag : v.in_tag ≡ is_tag (region read)
  in_content : v.in_content ≡ is_content (region read)
  space : v.prev_was_space ≡ (is_tag (region read) && after_space read)

abbrev Follows : Scanner → Bytes → ℕ → Emit → Type 0
Follows v read c skip = (stays read c ≡ false) × Tracks v (c ∷ read)
Follows v read c (keep v') = (stays read c ≡ true) × Tracks v' (c ∷ read)

step-Follows : (v : Scanner) (read : Bytes) (c : ℕ) → Tracks v read → Follows v read c (step v c)
unfolding step in_tag_step
step-Follows v read c t = ground (arith, t.in_tag, t.in_content, t.space)

compress_from-staying :
    (v : Scanner) (read xml : Bytes) → Tracks v read → compress_from v xml ≡ staying read xml
unfolding compress_from
compress_from-staying v read [] t = refl
compress_from-staying v read (c ∷ xml) t =
    by_step (step v c) (step-Follows v read c t) (λ w. compress_from-staying w (c ∷ read) xml)
  where
    by_step :
        (e : Emit)
        → Follows v read c e
        → ((w : Scanner) → Tracks w (c ∷ read) → compress_from w xml ≡ staying (c ∷ read) xml)
        → (elim e as (λ _. Bytes) [
          | skip ↦ compress_from v xml
          | keep v' ↦ c ∷ compress_from v' xml
        ])
          ≡ staying read (c ∷ xml)
    by_step skip (s, k) ih = ground (arith, s, ih v k)
    by_step (keep v') (s, k) ih = ground (arith, s, ih v' k)

-- Compression is the text of the bytes that stay, where each byte is judged by the text before it:
-- line breaks and tabs go; a space stays in front of all tags, in a tag if it is the first of its
-- run (line breaks and tabs not counted), and goes behind a tag; every other byte stays. So nothing
-- is lost but blanks, the order is kept, and a second compression changes nothing.
pub compress_xml-keeps :
    (xml : Bytes)
    → (compress_xml xml ≡ staying [] xml)
      × (without_blanks (compress_xml xml) ≡ without_blanks xml)
      × (compress_xml (compress_xml xml) ≡ compress_xml xml)
unfolding compress_xml
compress_xml-keeps xml = (
  compress_from-staying _ [] xml (record { in_tag = refl; in_content = refl; space = refl }),
  without_blanks-compress_from _ xml,
  compress_from_idem _ xml,
)
