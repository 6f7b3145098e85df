-- ===== src/Dds/Monad.antt =====
-- Operations that change the manager and may leave early, with a result or an exception, and a
-- Hoare logic for them.
use connext_triad.Prelude.{Bool, true, false, ◌≡◌, refl, subst, arith}
use connext_triad.Dds.State.{Manager, Outcome}

pub data Exit (A : Type 0) : Type 0 where
  value : A → Exit A
  leave : Outcome → Exit A

abbrev pub M : Type 0 → Type 0 → Type 0
M World A = Manager World → Exit A × Manager World

module _ {World : Type 0} where
  infixl 5 ◌>>=◌ ◌>>◌
  unfoldable pub ◌>>=◌ : {A B : Type 0} → M World A → (A → M World B) → M World B
  ◌>>=◌ op f m = let (r, m') = op m in elim r [ value a ↦ f a m' | leave o ↦ (leave o, m') ]

  abbrev pub ◌>>◌ : {B : Type 0} → M World (Unit {0}) → M World B → M World B
  op >> k = op >>= λ _. k

  abbrev pub pure : {A : Type 0} → A → M World A
  pure a m = (value a, m)

  abbrev pub exit : {A : Type 0} → Outcome → M World A
  exit o m = (leave o, m)

  abbrev pub gets : {A : Type 0} → (Manager World → A) → M World A
  gets f m = (value (f m), m)

  abbrev pub modify : (Manager World → Manager World) → M World (Unit {0})
  modify f m = (value tt, f m)

  -- An `if (…) return …;`.
  abbrev pub exit_if : Bool → Outcome → M World (Unit {0})
  exit_if true o m = (leave o, m)
  exit_if false o m = (value tt, m)

  -- A call outside the manager.
  abbrev pub outside : {A : Type 0} → (World → A × World) → M World A
  outside f m = let (a, w) = f m.world in (value a, record m { world = w })

  -- What holds after an operation: of its value, or of the outcome with which it left.
  abbrev pub Post :
      {A : Type 0}
      → (A → Manager World → Type 0)
      → (Outcome → Manager World → Type 0)
      → Exit A × Manager World
      → Type 0
  Post Q E (value a, m) = Q a m
  Post Q E (leave o, m) = E o m

-- From a state in which `P` holds, `op` ends with `Q` of its value or with `E` of its outcome.
pub record Triple {World A : Type 0} (P : Manager World → Type 0) (op : M World A)
    (Q : A → Manager World → Type 0) (E : Outcome → Manager World → Type 0) : Type 0 where
  pub run : (m : Manager World) → P m → Post Q E (op m)

module _ {World : Type 0} where
  bind-Post :
      {A B : Type 0} (Q : A → Manager World → Type 0) (R : B → Manager World → Type 0)
      (E : Outcome → Manager World → Type 0) (f : A → M World B) (r : Exit A × Manager World)
      → Post Q E r
      → ((a : A) → Triple (Q a) (f a) R E)
      → Post R E (elim r.0 [ value a ↦ f a r.1 | leave o ↦ (leave o, r.1) ])
  bind-Post Q R E f (value a, m) h k = (k a).run m h
  bind-Post Q R E f (leave o, m) h k = h

  -- The rule of `>>=`, by the assertion in between.
  pub bind :
      {A B : Type 0} {P : Manager World → Type 0} {R : B → Manager World → Type 0}
      {E : Outcome → Manager World → Type 0} {op : M World A} {f : A → M World B}
      (Q : A → Manager World → Type 0)
      → Triple P op Q E
      → ((a : A) → Triple (Q a) (f a) R E)
      → Triple P (op >>= f) R E
  unfolding ◌>>=◌
  bind {R = R} {E = E} {op = op} {f = f} Q h k = record {
    run = λ m p. bind-Post Q R E f (op m) (h.run m p) k;
  }

  -- A read of the state: the rest is proved of the value read, from the same state.
  pub bind_gets :
      {A B : Type 0} {P : Manager World → Type 0} {R : B → Manager World → Type 0}
      {E : Outcome → Manager World → Type 0} {g : Manager World → A} {f : A → M World B}
      → ((a : A) → Triple (λ m. P m × (g m ≡ a)) (f a) R E)
      → Triple P (gets g >>= f) R E
  unfolding ◌>>=◌
  bind_gets {g = g} k = record { run = λ m p. (k (g m)).run m (p, refl) }

  pub change :
      {P Q : Manager World → Type 0} {E : Outcome → Manager World → Type 0}
      {g : Manager World → Manager World}
      → ((m : Manager World) → P m → Q (g m))
      → Triple P (modify g) (λ _. Q) E
  change h = record { run = h }

  pub finish :
      {A : Type 0} {P : Manager World → Type 0} {Q : A → Manager World → Type 0}
      {E : Outcome → Manager World → Type 0} {a : A}
      → ((m : Manager World) → P m → Q a m)
      → Triple P (pure a) Q E
  finish h = record { run = h }

  pub give_up :
      {A : Type 0} {P : Manager World → Type 0} {Q : A → Manager World → Type 0}
      {E : Outcome → Manager World → Type 0} {o : Outcome}
      → ((m : Manager World) → P m → E o m)
      → Triple P (exit {A = A} o) Q E
  give_up h = record { run = h }

  pub strengthen :
      {A : Type 0} {P P' : Manager World → Type 0} {op : M World A} {Q : A → Manager World → Type 0}
      {E : Outcome → Manager World → Type 0}
      → Triple P op Q E
      → ((m : Manager World) → P' m → P m)
      → Triple P' op Q E
  strengthen t h = record { run = λ m p. t.run m (h m p) }

  Post-weaken :
      {A : Type 0} (Q Q' : A → Manager World → Type 0) (E : Outcome → Manager World → Type 0)
      (r : Exit A × Manager World)
      → ((a : A) (m : Manager World) → Q a m → Q' a m)
      → Post Q E r
      → Post Q' E r
  Post-weaken Q Q' E (value a, m) h q = h a m q
  Post-weaken Q Q' E (leave o, m) h q = q

  pub weaken :
      {A : Type 0} {P : Manager World → Type 0} {op : M World A} {Q Q' : A → Manager World → Type 0}
      {E : Outcome → Manager World → Type 0}
      → Triple P op Q E
      → ((a : A) (m : Manager World) → Q a m → Q' a m)
      → Triple P op Q' E
  weaken {op = op} {Q = Q} {Q' = Q'} {E = E} t h = record {
    run = λ m p. Post-weaken Q Q' E (op m) h (t.run m p);
  }

  -- What a successful operation satisfies.
  pub succeeds :
      {A : Type 0} {P : Manager World → Type 0} {op : M World A} {Q : A → Manager World → Type 0}
      {E : Outcome → Manager World → Type 0} (m : Manager World) (a : A)
      → Triple P op Q E
      → P m
      → (op m).0 ≡ value a
      → Q a (op m).1
  succeeds {A} {P} {op} {Q} {E} m a t p e = at (op m) (t.run m p) e
    where
      at : (r : Exit A × Manager World) → Post Q E r → r.0 ≡ value a → Q a r.1
      at (value b, m') k e' = subst (λ x. Q x m') (ground (arith, e')) k
      at (leave o, m') k e' = absurd (ground (arith, e'))
