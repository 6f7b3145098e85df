-- ===== src/Prelude/Nested.antt =====
-- The nested maps of `DdsManager`: domain to name, and domain to name to topic to entries.
use mathlib.Core.Path.{◌≡◌, refl}
use mathlib.Core.Bool.{◌&&◌}
use mathlib.Core.Option.{Option, none, some}
use mathlib.Core.List.{List, []}
use native.Mathlib.Omega.{arith}
use connext_triad.Prelude.Tests.{if◌then◌else◌, HasEq, ◌==◌}
use connext_triad.Prelude.Maps.{Map, lookup, insert, get_or, lookup-insert}

module _ {ℓ κ μ} {K : Type ℓ} {J : Type κ} {V : Type μ} ⦃e : HasEq K⦄ ⦃f : HasEq J⦄ where
  -- `m.find(k)` and then `find(j)`
  unfoldable pub lookup2 : K → J → Map K (Map J V) → Option V
  lookup2 k j m = elim (lookup k m) [ none ↦ none | some n ↦ lookup j n ]

  -- `m[k][j] = v`
  unfoldable pub insert2 : K → J → V → Map K (Map J V) → Map K (Map J V)
  insert2 k j v m = insert k (insert j v (get_or [] k m)) m

  -- `m[k]`, which gives a missing key an empty map
  unfoldable pub touch : K → Map K (Map J V) → Map K (Map J V)
  touch k m = insert k (get_or [] k m) m

  pub lookup-get_or :
      (k : K) (j : J) (m : Map K (Map J V)) → lookup j (get_or [] k m) ≡ lookup2 k j m
  unfolding lookup2 lookup
  lookup-get_or k j m =
      elim (lookup k m)
        as (λ o.
          lookup j (elim o [ none ↦ [] | some n ↦ n ])
          ≡ elim o [ none ↦ none | some n ↦ lookup j n ]) [ none ↦ refl | some n ↦ refl ]

  pub lookup2-insert2 :
      (k k' : K) (j j' : J) (v : V) (m : Map K (Map J V))
      → lookup2 k' j' (insert2 k j v m)
        ≡ (if (k == k') && (j == j') then some v else lookup2 k' j' m)
  unfolding lookup2 insert2
  lookup2-insert2 k k' j j' v m = ground (
    arith,
    lookup-insert k k' (insert j v (get_or [] k m)) m,
    lookup-insert j j' v (get_or [] k m),
    lookup-get_or k j' m,
    e.same_iff k k',
    f.same_iff j j',
  )

  pub lookup2-touch :
      (k k' : K) (j' : J) (m : Map K (Map J V)) → lookup2 k' j' (touch k m) ≡ lookup2 k' j' m
  unfolding lookup2 touch
  lookup2-touch k k' j' m =
      ground (arith, lookup-insert k k' (get_or [] k m) m, lookup-get_or k j' m, e.same_iff k k')

module _ {ℓ κ μ ν} {K : Type ℓ} {J : Type κ} {I : Type μ} {V : Type ν} ⦃e : HasEq K⦄ ⦃f : HasEq J⦄
    ⦃g : HasEq I⦄ where
  -- `m[k][j][i]`, read: a missing key stands for the empty vector.
  unfoldable pub entries : K → J → I → Map K (Map J (Map I (List V))) → List V
  entries k j i m = elim (lookup2 k j m) [ none ↦ [] | some n ↦ get_or [] i n ]

  unfoldable pub inner : K → J → Map K (Map J (Map I (List V))) → Map I (List V)
  inner k j m = elim (lookup2 k j m) [ none ↦ [] | some n ↦ n ]

  -- `m[k][j][i] = v`
  unfoldable pub set_entries :
      K → J → I → List V → Map K (Map J (Map I (List V))) → Map K (Map J (Map I (List V)))
  unfolding inner
  set_entries k j i v m = insert2 k j (insert i v (inner k j m)) m

  pub get_or-inner :
      (k : K) (j : J) (i : I) (m : Map K (Map J (Map I (List V))))
      → get_or [] i (inner k j m) ≡ entries k j i m
  unfolding entries inner lookup
  get_or-inner k j i m =
      elim (lookup2 k j m)
        as (λ o.
          get_or [] i (elim o [ none ↦ [] | some n ↦ n ])
          ≡ elim o [ none ↦ [] | some n ↦ get_or [] i n ]) [ none ↦ refl | some n ↦ refl ]

  pub entries-set_entries :
      (k k' : K) (j j' : J) (i i' : I) (v : List V) (m : Map K (Map J (Map I (List V))))
      → entries k' j' i' (set_entries k j i v m)
        ≡ (if (k == k') && ((j == j') && (i == i')) then v else entries k' j' i' m)
  unfolding entries set_entries
  entries-set_entries k k' j j' i i' v m = ground (
    arith,
    lookup2-insert2 k k' j j' (insert i v (inner k j m)) m,
    lookup-insert i i' v (inner k j m),
    get_or-inner k j i' m,
    e.same_iff k k',
    f.same_iff j j',
    g.same_iff i i',
  )
