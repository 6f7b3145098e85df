-- ===== src/Qos/Names/Laws.antt =====
-- Sorting and removing repetitions give an ascending list of the same names.
use connext_triad.Prelude.{
  List, ◌∷◌, [], ◌++◌, Bool, true, false, ◌≡◌, refl, sym, subst, ◌∙◌, ap, arith, ◌||◌,
  if◌then◌else◌,
}
use connext_triad.Xml.Text.{Bytes, bytes_beq, bytes_beq_iff}
use connext_triad.Qos.Store.{Platform, QosStore, contains}
use connext_triad.Qos.Listing.{list_profiles, external_names, builtin_part}
use connext_triad.Qos.Names.{bytes_leb, insert_sorted, sort, unique_from, unique}

bytes_leb-total : (s t : Bytes) → bytes_leb s t ≡ false → bytes_leb t s ≡ true
unfolding bytes_leb
bytes_leb-total [] t h = absurd (ground (arith, h))
bytes_leb-total (c ∷ s) [] h = refl
bytes_leb-total (c ∷ s) (d ∷ t) h = ground (arith, h, bytes_leb-total s t)

-- Each name is at most the next, and, where it is strict, not equal to it.
abbrev pub IsAscending : List Bytes → Type 0
IsAscending [] = Unit {0}
IsAscending (x ∷ []) = Unit {0}
IsAscending (x ∷ y ∷ ys) = (bytes_leb x y ≡ true) × IsAscending (y ∷ ys)

abbrev pub IsStrict : List Bytes → Type 0
IsStrict [] = Unit {0}
IsStrict (x ∷ []) = Unit {0}
IsStrict (x ∷ y ∷ ys) = (bytes_leb x y ≡ true) × (bytes_beq x y ≡ false) × IsStrict (y ∷ ys)

insert_sorted-IsAscending :
    (x : Bytes) (ys : List Bytes) → IsAscending ys → IsAscending (insert_sorted x ys)
unfolding insert_sorted
insert_sorted-IsAscending x [] h = tt
insert_sorted-IsAscending x (y ∷ []) h = by_test (bytes_leb x y) refl
  where
    by_test : (b : Bool) → bytes_leb x y ≡ b → IsAscending (if b then x ∷ y ∷ [] else y ∷ x ∷ [])
    by_test true e = (e, tt)
    by_test false e = (bytes_leb-total x y e, tt)
insert_sorted-IsAscending x (y ∷ z ∷ zs) (l, h) =
    by_tests (bytes_leb x y) (bytes_leb x z) refl refl (insert_sorted-IsAscending x (z ∷ zs) h)
  where
    by_tests :
        (b c : Bool)
        → bytes_leb x y ≡ b
        → bytes_leb x z ≡ c
        → IsAscending (if c then x ∷ z ∷ zs else z ∷ insert_sorted x zs)
        → IsAscending
            (if b then x ∷ y ∷ z ∷ zs else (y ∷ (if c then x ∷ z ∷ zs else z ∷ insert_sorted x zs)))
    by_tests true c e e' k = (e, (l, h))
    by_tests false true e e' k = (bytes_leb-total x y e, k)
    by_tests false false e e' k = (l, k)

sort-IsAscending : (xs : List Bytes) → IsAscending (sort xs)
unfolding sort
sort-IsAscending [] = tt
sort-IsAscending (x ∷ xs) = insert_sorted-IsAscending x (sort xs) (sort-IsAscending xs)

contains-insert_sorted :
    (n x : Bytes) (ys : List Bytes)
    → contains n (insert_sorted x ys) ≡ (bytes_beq n x || contains n ys)
unfolding insert_sorted
contains-insert_sorted n x [] = refl
contains-insert_sorted n x (y ∷ ys) = ground (arith, contains-insert_sorted n x ys)

contains-sort : (n : Bytes) (xs : List Bytes) → contains n (sort xs) ≡ contains n xs
unfolding sort
contains-sort n [] = refl
contains-sort n (x ∷ xs) =
    contains-insert_sorted n x (sort xs) ∙ ap (λ b. bytes_beq n x || b) (contains-sort n xs)

contains-unique_from :
    (n x : Bytes) (ys : List Bytes)
    → contains n (unique_from x ys) ≡ (bytes_beq n x || contains n ys)
unfolding unique_from
contains-unique_from n x [] = refl
contains-unique_from n x (y ∷ ys) =
    ground (arith, contains-unique_from n x ys, contains-unique_from n y ys, bytes_beq_iff x y)

pub contains-unique : (n : Bytes) (xs : List Bytes) → contains n (unique xs) ≡ contains n xs
unfolding unique
contains-unique n [] = refl
contains-unique n (x ∷ xs) = contains-unique_from n x xs

-- What is kept begins with the first name.
unique_from_head : (x : Bytes) (ys : List Bytes) → (r : List Bytes) × (unique_from x ys ≡ x ∷ r)
unfolding unique_from
unique_from_head x [] = ([], refl)
unique_from_head x (y ∷ ys) = by_test (bytes_beq x y) (unique_from_head x ys)
  where
    by_test :
        (b : Bool)
        → (r : List Bytes) × (unique_from x ys ≡ x ∷ r)
        → (r : List Bytes) × ((if b then unique_from x ys else x ∷ unique_from y ys) ≡ x ∷ r)
    by_test true h = h
    by_test false h = (unique_from y ys, refl)

cons-IsStrict :
    (x y : Bytes) (l : List Bytes)
    → bytes_leb x y ≡ true
    → bytes_beq x y ≡ false
    → (r : List Bytes) × (l ≡ y ∷ r)
    → IsStrict l
    → IsStrict (x ∷ l)
cons-IsStrict x y l a b (r, e) h = subst (λ m. IsStrict (x ∷ m)) (sym e) (a, b, subst IsStrict e h)

skip-IsAscending :
    (x y : Bytes) (ys : List Bytes) → x ≡ y → IsAscending (y ∷ ys) → IsAscending (x ∷ ys)
skip-IsAscending x y ys e h = subst (λ z. IsAscending (z ∷ ys)) (sym e) h

unique_from-IsStrict :
    (x : Bytes) (ys : List Bytes) → IsAscending (x ∷ ys) → IsStrict (unique_from x ys)
unfolding unique_from
unique_from-IsStrict x [] h = tt
unique_from-IsStrict x (y ∷ ys) (l, h) =
    by_test (bytes_beq x y) refl (λ e. unique_from-IsStrict x ys (skip-IsAscending x y ys e h))
      (unique_from-IsStrict y ys h)
  where
    by_test :
        (b : Bool)
        → bytes_beq x y ≡ b
        → (x ≡ y → IsStrict (unique_from x ys))
        → IsStrict (unique_from y ys)
        → IsStrict (if b then unique_from x ys else x ∷ unique_from y ys)
    by_test true e k k' = k ((bytes_beq_iff x y).0 e)
    by_test false e k k' = cons-IsStrict x y _ l e (unique_from_head y ys) k'

unique-IsStrict : (xs : List Bytes) → IsAscending xs → IsStrict (unique xs)
unfolding unique
unique-IsStrict [] h = tt
unique-IsStrict (x ∷ xs) h = unique_from-IsStrict x xs h

contains-append :
    (n : Bytes) (xs ys : List Bytes) → contains n (xs ++ ys) ≡ (contains n xs || contains n ys)
contains-append n [] ys = refl
contains-append n (x ∷ xs) ys = ground (arith, contains-append n xs ys)

-- Sorted and without repetitions, and nothing is lost or added.
unique-sort :
    (xs : List Bytes)
    → IsStrict (unique (sort xs)) × ((n : Bytes) → contains n (unique (sort xs)) ≡ contains n xs)
unique-sort xs = (
  unique-IsStrict (sort xs) (sort-IsAscending xs),
  λ n. contains-unique n (sort xs) ∙ contains-sort n xs,
)

module _ (platform : Platform) where
  -- The list of profiles ascends without repetitions, and its names are those of the dynamic
  -- profiles, those that the files of the providers have now, and, where it is asked for, the
  -- built-in ones.
  pub list_profiles-names :
      (disk : platform.Disk) (include_builtin : Bool) (s : QosStore platform)
      → IsStrict (list_profiles platform disk include_builtin s)
        × ((n : Bytes)
            → contains n (list_profiles platform disk include_builtin s) ≡ (
                contains n s.dynamic_profiles_index
                || contains n (external_names platform disk s.providers)
                || contains n (builtin_part platform include_builtin s)))
  unfolding list_profiles
  list_profiles-names disk include_builtin s = (
    (unique-sort _).0,
    λ n.
        (unique-sort _).1 n
        ∙ contains-append n (s.dynamic_profiles_index ++ external_names platform disk s.providers) _
        ∙ ap (λ b. b || contains n (builtin_part platform include_builtin s))
            (contains-append n s.dynamic_profiles_index _),
  )
