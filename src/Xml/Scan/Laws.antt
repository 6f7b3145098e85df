-- ===== src/Xml/Scan/Laws.antt =====
-- The tags that are found, and the loop over them.
use connext_triad.Prelude.{
  ℕ, zero, suc, ◌≤◌, ◌<◌, true, Option, none, some, [], ◌∷◌, ◌++◌, length, ◌≡◌, refl, ap, sym, ◌∙◌,
  subst, arith, nat_beq, append_assoc, length-append,
}
use connext_triad.Xml.Text.{
  Bytes, cut, cut_byte, starts_with, IsCut, IsCutByte, cut-IsCut, cut_byte-IsCutByte,
}
use connext_triad.Xml.Scan.{Tag, close_tag, find_tag, scan, for_tags}

-- The tag is where the text says, begins as asked and is not empty.
abbrev pub IsTag : Bytes → Bytes → Option Tag → Type 0
IsTag tag text none = Unit {0}
IsTag tag text (some t) =
    (text ≡ t.before ++ (t.opening ++ t.after))
    × (starts_with tag (t.opening ++ t.after) ≡ true)
    × (length t.after < length text)

close_tag-IsTag :
    (tag text before from : Bytes) (o : Option (Bytes × ℕ × Bytes))
    → text ≡ before ++ from
    → starts_with tag from ≡ true
    → IsCutByte (nat_beq 62) from o
    → IsTag tag text (close_tag before o)
close_tag-IsTag tag text before from none e b h = tt
close_tag-IsTag tag text before from (some (opening, c, after)) e b (h, q) =
    let joined = h ∙ sym (append_assoc opening (c ∷ []) after) in
    (
      e ∙ ap (λ x. before ++ x) joined,
      subst (λ x. starts_with tag x ≡ true) joined b,
      omega (
        arith,
        ap length e,
        ap length h,
        length-append before from,
        length-append opening (c ∷ after),
      ),
    )

pub find_tag-IsTag : (tag text : Bytes) → IsTag tag text (find_tag tag text)
unfolding find_tag
find_tag-IsTag tag text = by_cut (cut tag text) (cut-IsCut tag text)
  where
    by_cut :
        (o : Option (Bytes × Bytes))
        → IsCut tag text o
        → IsTag tag text (elim o [
          | none ↦ none
          | some (before, from) ↦ close_tag before (cut_byte (nat_beq 62) from)
        ])
    by_cut none h = tt
    by_cut (some (before, from)) (e, b) =
        close_tag-IsTag tag text before from (cut_byte (nat_beq 62) from) e b
          (cut_byte-IsCutByte (nat_beq 62) from)

module _ {A : Type 0} (tag : Bytes) (done : A) (body : Tag → A → A) where
  scan_fuel :
      (f g : ℕ) (text : Bytes)
      → length text ≤ f
      → length text ≤ g
      → scan f tag done body text ≡ scan g tag done body text
  unfolding scan
  scan_fuel zero zero text hf hg = refl
  scan_fuel zero (suc g) text hf hg = by_tag (find_tag tag text) (find_tag-IsTag tag text)
    where
      by_tag :
          (o : Option Tag)
          → IsTag tag text o
          → done
            ≡ elim o as (λ _. A) [ none ↦ done | some t ↦ body t (scan g tag done body t.after) ]
      by_tag none h = refl
      by_tag (some t) (e, b, l) = absurd (omega (arith, l, hf))
  scan_fuel (suc f) zero text hf hg = by_tag (find_tag tag text) (find_tag-IsTag tag text)
    where
      by_tag :
          (o : Option Tag)
          → IsTag tag text o
          → elim o as (λ _. A) [ none ↦ done | some t ↦ body t (scan f tag done body t.after) ]
            ≡ done
      by_tag none h = refl
      by_tag (some t) (e, b, l) = absurd (omega (arith, l, hg))
  scan_fuel (suc f) (suc g) text hf hg =
      by_tag (find_tag tag text) (find_tag-IsTag tag text)
        (λ t l. scan_fuel f g t.after (omega (arith, l, hf)) (omega (arith, l, hg)))
    where
      by_tag :
          (o : Option Tag)
          → IsTag tag text o
          → ((t : Tag)
              → length t.after < length text
              → scan f tag done body t.after ≡ scan g tag done body t.after)
          → elim o as (λ _. A) [ none ↦ done | some t ↦ body t (scan f tag done body t.after) ]
            ≡ elim o as (λ _. A) [ none ↦ done | some t ↦ body t (scan g tag done body t.after) ]
      by_tag none h k = refl
      by_tag (some t) (e, b, l) k = ap (body t) (k t l)

  -- The loop over the tags ends, whatever its body does: it is the loop of the program, a round
  -- of which looks for the next tag, ends where there is none, and runs the body on what the rest
  -- of the loop gives.
  pub for_tags-round :
      (text : Bytes)
      → for_tags tag done body text ≡ elim (find_tag tag text) as (λ _. A) [
        | none ↦ done
        | some t ↦ body t (for_tags tag done body t.after)
      ]
  unfolding for_tags scan
  for_tags-round text =
      scan_fuel (length text) (suc (length text)) text (omega arith) (omega arith)
      ∙ by_tag (find_tag tag text) (find_tag-IsTag tag text)
    where
      by_tag :
          (o : Option Tag)
          → IsTag tag text o
          → elim o as (λ _. A) [
            | none ↦ done
            | some t ↦ body t (scan (length text) tag done body t.after)
          ]
            ≡ elim o as (λ _. A) [
              | none ↦ done
              | some t ↦ body t (scan (length t.after) tag done body t.after)
            ]
      by_tag none h = refl
      by_tag (some t) (e, b, l) =
          ap (body t)
            (scan_fuel (length text) (length t.after) t.after (omega (arith, l)) (omega arith))

  -- What holds where there is no further tag, and of a round if it holds of the rest, holds of the
  -- whole loop.
  scan_induct :
      (P : Bytes → A → Type 0)
      → ((text : Bytes) → find_tag tag text ≡ none → P text done)
      → ((text : Bytes) (t : Tag) (a : A)
          → find_tag tag text ≡ some t
          → P t.after a
          → P text (body t a))
      → (fuel : ℕ) (text : Bytes) → length text ≤ fuel
      → P text (scan fuel tag done body text)
  unfolding scan
  scan_induct P ends round zero text l =
      ends text (by_tag (find_tag tag text) (find_tag-IsTag tag text))
    where
      by_tag : (o : Option Tag) → IsTag tag text o → o ≡ none
      by_tag none h = refl
      by_tag (some t) (e, b, k) = absurd (omega (arith, k, l))
  scan_induct P ends round (suc fuel) text l =
      by_tag (find_tag tag text) refl (find_tag-IsTag tag text)
        (λ t k. scan_induct P ends round fuel t.after (omega (arith, k, l)))
    where
      by_tag :
          (o : Option Tag)
          → find_tag tag text ≡ o
          → IsTag tag text o
          → ((t : Tag) → length t.after < length text → P t.after (scan fuel tag done body t.after))
          → P text (elim o as (λ _. A) [
            | none ↦ done
            | some t ↦ body t (scan fuel tag done body t.after)
          ])
      by_tag none e h k = ends text e
      by_tag (some t) e h k = round text t _ e (k t h.2)

  pub for_tags_induct :
      (P : Bytes → A → Type 0)
      → ((text : Bytes) → find_tag tag text ≡ none → P text done)
      → ((text : Bytes) (t : Tag) (a : A)
          → find_tag tag text ≡ some t
          → P t.after a
          → P text (body t a))
      → (text : Bytes) → P text (for_tags tag done body text)
  unfolding for_tags
  for_tags_induct P ends round text = scan_induct P ends round (length text) text (omega arith)
