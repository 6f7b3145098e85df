-- ===== src/Qos/Names.antt =====
-- Lists of names, sorted and without repetitions, as RtpDdsGateway/src/qos_store.cpp makes them.
pub mod Laws
use connext_triad.Prelude.{
  List, ◌∷◌, [], Bool, true, false, ◌||◌, ◌&&◌, nat_beq, ltb, if◌then◌else◌,
}
use connext_triad.Xml.Text.{Bytes, bytes_beq}

-- The order of `std::string`.
unfoldable pub bytes_leb : Bytes → Bytes → Bool
bytes_leb [] t = true
bytes_leb (c ∷ s) [] = false
bytes_leb (c ∷ s) (d ∷ t) = ltb c d || (nat_beq c d && bytes_leb s t)

-- `std::sort`
unfoldable pub insert_sorted : Bytes → List Bytes → List Bytes
unfolding bytes_leb
insert_sorted x [] = x ∷ []
insert_sorted x (y ∷ ys) =
    let later = insert_sorted x ys in if bytes_leb x y then x ∷ y ∷ ys else y ∷ later

unfoldable pub sort : List Bytes → List Bytes
unfolding insert_sorted
sort [] = []
sort (x ∷ xs) = insert_sorted x (sort xs)

-- `std::unique` with `erase`: of equal neighbours the first is kept.
unfoldable pub unique_from : Bytes → List Bytes → List Bytes
unique_from x [] = x ∷ []
unique_from x (y ∷ ys) =
    let later = unique_from y ys in if bytes_beq x y then unique_from x ys else x ∷ later

unfoldable pub unique : List Bytes → List Bytes
unfolding unique_from
unique [] = []
unique (x ∷ xs) = unique_from x xs
