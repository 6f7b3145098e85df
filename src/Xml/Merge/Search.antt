-- ===== src/Xml/Merge/Search.antt =====
-- Which library and which profile a merge finds.
use connext_triad.Prelude.{
  Bool, true, false, Option, none, some, is_some, ◌++◌, ◌≡◌, refl, ap, sym, ◌∙◌, subst, ◌||◌, ◌&&◌,
  not, is_empty, if◌then◌else◌, ◌==◌, append_assoc, length, drop,
}
use connext_triad.Xml.Text.{Bytes, bytes_eq, cut}
use connext_triad.Xml.Scan.{
  Tag, find_tag, name_of, library_tag, library_close, profile_tag, profile_close,
}
use connext_triad.Xml.Scan.Laws.{IsTag, find_tag-IsTag, for_tags_induct}
use connext_triad.Xml.Merge.{
  Block, extend, close_block, library_round, find_library, Gap, extend_gap, profile_gap,
  profile_round, find_profile,
}

abbrev pub past_tag : Bytes → Option (Bytes × Tag) → Option (Bytes × Tag)
past_tag text none = none
past_tag text (some (head, t)) = some (text ++ head, t)

-- The first tag of a text, of those that are found one behind the other, that passes a test, with the
-- text before it; or none, where no tag of the text passes it.
pub data Search (tag : Bytes) (test : Tag → Bool) : Bytes → Option (Bytes × Tag) → Type 0 where
  ends : (text : Bytes) → find_tag tag text ≡ none → Search tag test text none
  here :
      (text : Bytes) (t : Tag)
      → find_tag tag text ≡ some t
      → test t ≡ true
      → Search tag test text (some (t.before, t))
  past :
      (text : Bytes) (t : Tag) (o : Option (Bytes × Tag))
      → find_tag tag text ≡ some t
      → test t ≡ false
      → Search tag test t.after o
      → Search tag test text (past_tag (t.before ++ t.opening) o)

-- What is found is where the text says.
abbrev Located : Bytes → Option (Bytes × Tag) → Type 0
Located text none = Unit {0}
Located text (some (head, t)) = text ≡ head ++ (t.opening ++ t.after)

tag-Located :
    (tag text : Bytes) (t : Tag)
    → find_tag tag text ≡ some t
    → text ≡ t.before ++ (t.opening ++ t.after)
tag-Located tag text t e = (subst (IsTag tag text) e (find_tag-IsTag tag text)).0

past_tag-Located :
    (text : Bytes) (t : Tag) (o : Option (Bytes × Tag))
    → text ≡ t.before ++ (t.opening ++ t.after)
    → Located t.after o
    → Located text (past_tag (t.before ++ t.opening) o)
past_tag-Located text t none e h = tt
past_tag-Located text t (some (head, u)) e h =
    e
    ∙ ap (λ x. t.before ++ (t.opening ++ x)) h
    ∙ regroup t.before t.opening head (u.opening ++ u.after)
  where
    regroup : (a b c x : Bytes) → a ++ (b ++ (c ++ x)) ≡ ((a ++ b) ++ c) ++ x
    regroup a b c x = simp append_assoc

pub Search-Located :
    {tag : Bytes} {test : Tag → Bool} {text : Bytes} {o : Option (Bytes × Tag)}
    → Search tag test text o
    → Located text o
Search-Located {tag} (ends text e) = tt
Search-Located {tag} (here text t e h) = tag-Located tag text t e
Search-Located {tag} (past text t o e h s) =
    past_tag-Located text t o (tag-Located tag text t e) (Search-Located s)

-- A library of that name, which is closed.
abbrev pub is_library : Bytes → Tag → Bool
is_library library_name t =
    not (is_empty (name_of t.opening) || not (name_of t.opening == library_name))
    && is_some (cut library_close t.after)

abbrev pub is_profile : Bytes → Tag → Bool
is_profile profile_name t = name_of t.opening == profile_name

abbrev pub LibraryFound : Bytes → Bytes → Option Block → Type 0
LibraryFound library_name text none = Search library_tag (is_library library_name) text none
LibraryFound library_name text (some b) =
    (head : Bytes) × (t : Tag) × Search library_tag (is_library library_name) text (some (head, t))
    × (b.head ≡ head ++ t.opening)
    × (cut library_close t.after ≡ some (b.block, b.tail))

extend-LibraryFound :
    (library_name text : Bytes) (t : Tag) (o : Option Block)
    → find_tag library_tag text ≡ some t
    → is_library library_name t ≡ false
    → LibraryFound library_name t.after o
    → LibraryFound library_name text (extend (t.before ++ t.opening) o)
extend-LibraryFound library_name text t none e n h = past text t none e n h
extend-LibraryFound library_name text t (some b) e n (head, u, s, k, c) = (
  (t.before ++ t.opening) ++ head,
  u,
  past text t (some (head, u)) e n s,
  ap (λ x. (t.before ++ t.opening) ++ x) k
      ∙ sym (append_assoc (t.before ++ t.opening) head u.opening),
  c,
)

pub find_library-LibraryFound :
    (library_name text : Bytes) → LibraryFound library_name text (find_library library_name text)
unfolding find_library library_round
find_library-LibraryFound library_name text =
    for_tags_induct library_tag none (library_round library_name) (LibraryFound library_name)
      (λ x e. ends x e) (λ x t a e k. by_test x t a _ refl (cut library_close t.after) refl e k)
      text
  where
    by_test :
        (x : Bytes) (t : Tag) (a : Option Block) (other : Bool)
        → (is_empty (name_of t.opening) || not (name_of t.opening == library_name)) ≡ other
        → (c : Option (Bytes × Bytes)) → cut library_close t.after ≡ c
        → find_tag library_tag x ≡ some t
        → LibraryFound library_name t.after a
        → LibraryFound library_name x (
            if other
            then extend (t.before ++ t.opening) a
            else close_block (t.before ++ t.opening) c (extend (t.before ++ t.opening) a))
    by_test x t a true n c e f k =
        extend-LibraryFound library_name x t a f
          (ap (λ b. not b && is_some (cut library_close t.after)) n) k
    by_test x t a false n none e f k =
        extend-LibraryFound library_name x t a f
          (ap (λ b. not b && is_some (cut library_close t.after)) n ∙ ap is_some e) k
    by_test x t a false n (some (block, tail)) e f k = (
      t.before,
      t,
      here x t f (ap (λ b. not b && is_some (cut library_close t.after)) n ∙ ap is_some e),
      refl,
      e,
    )

-- The gap of a profile that is found: from its opening tag to its closing one.
abbrev pub IsGap : Bytes → Tag → Option (Bytes × Bytes) → Option Gap → Type 0
IsGap head t none o = o ≡ none
IsGap head t (some (inner, from)) o =
    o
    ≡ some (record {
      head = head;
      old = t.opening ++ inner ++ profile_close;
      tail = drop (length profile_close) from;
    })

abbrev pub GapOf : Option (Bytes × Tag) → Option Gap → Type 0
GapOf none o = o ≡ none
GapOf (some (head, t)) o = IsGap head t (cut profile_close t.after) o

-- The first profile of that name decides, also where it is not closed.
abbrev pub ProfileFound : Bytes → Bytes → Option Gap → Type 0
ProfileFound profile_name text o =
    (found : Option (Bytes × Tag)) × Search profile_tag (is_profile profile_name) text found
    × GapOf found o

profile_gap-IsGap : (t : Tag) → IsGap t.before t (cut profile_close t.after) (profile_gap t)
unfolding profile_gap
profile_gap-IsGap t = by_cut (cut profile_close t.after)
  where
    by_cut :
        (c : Option (Bytes × Bytes))
        → IsGap t.before t c (elim c as (λ _. Option Gap) [
          | none ↦ none
          | some (inner, from) ↦ some (record {
            head = t.before;
            old = t.opening ++ inner ++ profile_close;
            tail = drop (length profile_close) from;
          })
        ])
    by_cut none = refl
    by_cut (some (inner, from)) = refl

extend_gap-IsGap :
    (text head : Bytes) (t : Tag) (c : Option (Bytes × Bytes)) (o : Option Gap)
    → IsGap head t c o
    → IsGap (text ++ head) t c (extend_gap text o)
extend_gap-IsGap text head t none o e = ap (extend_gap text) e
extend_gap-IsGap text head t (some (inner, from)) o e = ap (extend_gap text) e

past_tag-GapOf :
    (text : Bytes) (found : Option (Bytes × Tag)) (o : Option Gap)
    → GapOf found o
    → GapOf (past_tag text found) (extend_gap text o)
past_tag-GapOf text none o e = ap (extend_gap text) e
past_tag-GapOf text (some (head, t)) o e =
    extend_gap-IsGap text head t (cut profile_close t.after) o e

pub find_profile-ProfileFound :
    (profile_name text : Bytes) → ProfileFound profile_name text (find_profile profile_name text)
unfolding find_profile profile_round
find_profile-ProfileFound profile_name text =
    for_tags_induct profile_tag none (profile_round profile_name) (ProfileFound profile_name)
      (λ x e. (none, ends x e, refl)) (λ x t a e k. by_test x t a _ refl e k) text
  where
    by_test :
        (x : Bytes) (t : Tag) (a : Option Gap) (same : Bool)
        → is_profile profile_name t ≡ same
        → find_tag profile_tag x ≡ some t
        → ProfileFound profile_name t.after a
        → ProfileFound profile_name x
            (if same then profile_gap t else extend_gap (t.before ++ t.opening) a)
    by_test x t a true n e k = (some (t.before, t), here x t e n, profile_gap-IsGap t)
    by_test x t a false n e (found, s, g) = (
      past_tag (t.before ++ t.opening) found,
      past x t found e n s,
      past_tag-GapOf (t.before ++ t.opening) found a g,
    )
