-- ===== src/Xml/Text/Laws.antt =====
-- A search finds the same match in a text that goes on differently behind it.
use connext_triad.Prelude.{
  ℕ, ◌≤◌, Bool, true, false, Option, none, some, [], ◌∷◌, ◌++◌, length, drop, ◌≡◌, refl, sym, ◌∙◌,
  ap, subst, arith, ◌&&◌, ◌||◌, any, nat_beq, if◌then◌else◌, append_assoc, length-append,
}
use connext_triad.Xml.Text.{Bytes, starts_with, push, cut, cut_byte, push_byte, IsCut, cut-IsCut}

pub starts_with-append :
    (pattern text : Bytes)
    → starts_with pattern text ≡ true
    → text ≡ pattern ++ drop (length pattern) text
unfolding starts_with
starts_with-append [] text h = refl
starts_with-append (p ∷ pattern) [] h = absurd (ground (arith, h))
starts_with-append (p ∷ pattern) (c ∷ text) h = ground (arith, h, starts_with-append pattern text)

starts_with_self : (pattern text : Bytes) → starts_with pattern (pattern ++ text) ≡ true
unfolding starts_with
starts_with_self [] text = refl
starts_with_self (p ∷ pattern) text = ground (arith, starts_with_self pattern text)

-- Whether a text begins with the pattern is a matter of as many bytes as the pattern has.
starts_with_local :
    (pattern text x y : Bytes)
    → length pattern ≤ length text
    → starts_with pattern (text ++ x) ≡ starts_with pattern (text ++ y)
unfolding starts_with
starts_with_local [] text x y h = refl
starts_with_local (p ∷ pattern) [] x y h = absurd (omega (arith, h))
starts_with_local (p ∷ pattern) (c ∷ text) x y h =
    ap (λ b. nat_beq p c && b) (starts_with_local pattern text x y (omega (arith, h)))

cut_here :
    (pattern text : Bytes) → starts_with pattern text ≡ true → cut pattern text ≡ some ([], text)
unfolding cut
cut_here pattern [] h = rw (h, cut) refl
cut_here pattern (c ∷ text) h = rw (h, cut) refl

-- The text before a match, where the search goes through it.
pub data NoMatch (pattern : Bytes) : Bytes → Type 0 where
  ends : NoMatch pattern []
  passes :
      (c : ℕ) (before : Bytes)
      → ((x : Bytes) → starts_with pattern (c ∷ (before ++ (pattern ++ x))) ≡ false)
      → NoMatch pattern before
      → NoMatch pattern (c ∷ before)

abbrev CutNoMatch : Bytes → Option (Bytes × Bytes) → Type 0
CutNoMatch pattern none = Unit {0}
CutNoMatch pattern (some (before, from)) = NoMatch pattern before

push-NoMatch :
    (pattern text : Bytes) (c : ℕ) (o : Option (Bytes × Bytes))
    → starts_with pattern (c ∷ text) ≡ false
    → IsCut pattern text o
    → CutNoMatch pattern o
    → CutNoMatch pattern (push c o)
push-NoMatch pattern text c none h k n = tt
push-NoMatch pattern text c (some (before, from)) h (e, s) n =
    passes c before
      (λ x.
        ap (starts_with pattern) (ap (◌∷◌ c) (sym (append_assoc before pattern x)))
        ∙ starts_with_local pattern (c ∷ (before ++ pattern)) x (drop (length pattern) from)
            (omega (arith, length-append before pattern))
        ∙ ap (starts_with pattern) (
            ap (◌∷◌ c) (
              append_assoc before pattern _
              ∙ ap (λ z. before ++ z) (sym (starts_with-append pattern from s))
              ∙ sym e))
        ∙ h)
      n

test-NoMatch :
    (pattern text : Bytes) (b : Bool) (o : Option (Bytes × Bytes))
    → (b ≡ false → CutNoMatch pattern o)
    → CutNoMatch pattern (if b then some ([], text) else o)
test-NoMatch pattern text true o k = ends
test-NoMatch pattern text false o k = k refl

cut-NoMatch : (pattern text : Bytes) → CutNoMatch pattern (cut pattern text)
unfolding cut
cut-NoMatch pattern [] = test-NoMatch pattern [] _ none (λ h. tt)
cut-NoMatch pattern (c ∷ text) = test-NoMatch pattern (c ∷ text) _ _ (λ h.
    push-NoMatch pattern text c (cut pattern text) h (cut-IsCut pattern text)
      (cut-NoMatch pattern text))

NoMatch-cut :
    (pattern before x : Bytes)
    → NoMatch pattern before
    → cut pattern (before ++ (pattern ++ x)) ≡ some (before, pattern ++ x)
unfolding cut
NoMatch-cut pattern [] x n = cut_here pattern (pattern ++ x) (starts_with_self pattern x)
NoMatch-cut pattern (c ∷ before) x (passes _ _ h n) =
    rw (h x, cut) (ap (push c) (NoMatch-cut pattern before x n))

-- What is found before a match is found there too when the text goes on differently.
pub cut-again :
    (pattern text before from x : Bytes)
    → cut pattern text ≡ some (before, from)
    → cut pattern (before ++ (pattern ++ x)) ≡ some (before, pattern ++ x)
cut-again pattern text before from x e =
    NoMatch-cut pattern before x (subst (CutNoMatch pattern) e (cut-NoMatch pattern text))

or_false : (a b : Bool) → (a || b) ≡ false → (a ≡ false) × (b ≡ false)
or_false true b h = absurd (ground (arith, h))
or_false false b h = (refl, h)

pub cut_byte-append :
    (p : ℕ → Bool) (before after : Bytes) (c : ℕ)
    → any p before ≡ false
    → p c ≡ true
    → cut_byte p (before ++ c ∷ after) ≡ some (before, c, after)
unfolding cut_byte
cut_byte-append p [] after c h t = rw (t, cut_byte) refl
cut_byte-append p (d ∷ before) after c h t =
    let (a, b) = or_false (p d) (any p before) h in
    rw (a, cut_byte) (ap (push_byte d) (cut_byte-append p before after c b t))

abbrev pub FoundByte : (ℕ → Bool) → Option (Bytes × ℕ × Bytes) → Type 0
FoundByte p none = Unit {0}
FoundByte p (some (before, c, after)) = (any p before ≡ false) × (p c ≡ true)

pub cut_byte-FoundByte : (p : ℕ → Bool) (text : Bytes) → FoundByte p (cut_byte p text)
unfolding cut_byte
cut_byte-FoundByte p [] = tt
cut_byte-FoundByte p (c ∷ text) = by_test (p c) refl (cut_byte p text) (cut_byte-FoundByte p text)
  where
    by_test :
        (b : Bool)
        → p c ≡ b
        → (o : Option (Bytes × ℕ × Bytes)) → FoundByte p o
        → FoundByte p (if b then some ([], c, text) else push_byte c o)
    by_test true e o h = (refl, e)
    by_test false e none h = tt
    by_test false e (some (before, d, after)) (h, q) = (ap (λ b. b || any p before) e ∙ h, q)
