-- ===== src/Dds/Publish/Balance.antt =====
-- Every sample that a publication makes is destroyed, on each way out of it.
use connext_triad.Prelude.{
  ℕ, ◌+◌, ◌<◌, ℤ, String, Bool, Option, none, some, ◌≡◌, refl, arith, ◌∙◌, int_eq, string_eq,
}
use connext_triad.Dds.State.{Manager}
use connext_triad.Dds.Monad.{M, Exit, value, leave, Post, Triple, outside}
use connext_triad.Dds.Samples.{
  TypeEntry, Samples, create_sample, destroy_sample, json_to_dds, guarded, with_sample, create_by,
  convert_by, scope,
}
use connext_triad.Dds.Publish.{publish_json, publish_json_at}
use connext_triad.Dds.Publish.Kept.{Kept, either_way, publish_json-Kept, publish_json_at-Kept}

-- What the tables of `idlmeta` and the writers do to the number of samples that exist: a successful
-- `create` makes one, a `destroy` removes one, and nothing else makes or removes any.
pub record Counted {World : Type 0} (samples : Samples World) (live : World → ℕ) : Type 0 where
  pub create_none :
      (t : String) (entry : TypeEntry World) (w : World)
      → samples.type_registry t ≡ some entry
      → (entry.create w).0 ≡ none
      → live (entry.create w).1 ≡ live w
  pub create_some :
      (t : String) (entry : TypeEntry World) (w : World) (s : ℕ)
      → samples.type_registry t ≡ some entry
      → (entry.create w).0 ≡ some s
      → live (entry.create w).1 ≡ live w + 1
  pub destroy_one :
      (t : String) (entry : TypeEntry World) (w : World) (s : ℕ)
      → samples.type_registry t ≡ some entry
      → 0 < live w
      → live (entry.destroy s w) + 1 ≡ live w
  pub convert_none :
      (t : String) (from_json : samples.Json → ℕ → World → Bool × World) (j : samples.Json) (s : ℕ)
      (w : World)
      → samples.json_registry t ≡ some from_json
      → live (from_json j s w).1 ≡ live w
  pub write_none : (h s : ℕ) (w : World) → live (samples.write_any h s w).1 ≡ live w

module _ {World : Type 0} (samples : Samples World) (live : World → ℕ)
    (laws : Counted samples live) where
  abbrev Live : ℕ → Manager World → Type 0
  Live n m = live m.world ≡ n

  abbrev Balanced : {A : Type 0} → M World A → Type 0
  Balanced = Kept Live

  outside-Balanced :
      {A : Type 0} (f : World → A × World)
      → ((w : World) → live (f w).1 ≡ live w)
      → Balanced (outside f)
  outside-Balanced f h n = record { run = λ m p. h m.world ∙ p }

  json_to_dds-live :
      (j : samples.Json) (t : String) (s : ℕ) (w : World)
      → live (json_to_dds samples j t s w).1 ≡ live w
  unfolding json_to_dds
  json_to_dds-live j t s w = converted (samples.json_registry t) refl
    where
      converted :
          (r : Option (samples.Json → ℕ → World → Bool × World))
          → samples.json_registry t ≡ r
          → live (convert_by samples r j s w).1 ≡ live w
      converted none k = refl
      converted (some from_json) k = laws.convert_none t from_json j s w k

  -- The guard destroys the one sample more that there is in its block.
  guarded-Balanced :
      {A : Type 0} {body : M World A} (t : String) (entry : TypeEntry World) (s n : ℕ)
      → samples.type_registry t ≡ some entry
      → Balanced body
      → Triple (Live (n + 1)) (guarded samples t s body) (λ _. Live n) (λ _. Live n)
  unfolding guarded destroy_sample
  guarded-Balanced {A} {body} t entry s n known b = record {
    run = λ m p. left (body m) ((b (n + 1)).run m p);
  }
    where
      gone : (w : World) → live w ≡ n + 1 → live (destroy_sample samples t s w) ≡ n
      gone w k = rw (known, destroy_sample) (grind (arith, laws.destroy_one t entry w s known))

      left :
          (r : Exit A × Manager World)
          → Post (λ _. Live (n + 1)) (λ _. Live (n + 1)) r
          → Post
              (λ _. Live n)
              (λ _. Live n)
              (r.0, record r.1 { world = destroy_sample samples t s r.1.world })
      left (value a, m) k = gone m.world k
      left (leave o, m) k = gone m.world k

  with_sample-Balanced :
      (A : Type 0) (t : String) (no_sample : M World A) (body : ℕ → M World A)
      → Balanced no_sample
      → ((s : ℕ) → Balanced (body s))
      → Balanced (with_sample samples t no_sample body)
  unfolding with_sample create_sample
  with_sample-Balanced A t no_sample body b b' n = record {
    run = λ m p. by_entry m p (samples.type_registry t) refl;
  }
    where
      made :
          (m : Manager World) (entry : TypeEntry World)
          → samples.type_registry t ≡ some entry
          → live m.world ≡ n
          → (r : Option ℕ) (w : World) → (entry.create m.world).0 ≡ r
          → (entry.create m.world).1 ≡ w
          → Post {A = A}
              (λ _. Live n)
              (λ _. Live n)
              (scope samples t no_sample body r (record m { world = w }))
      made m entry k p none w e e' =
          (b n).run (record m { world = w }) (grind (arith, laws.create_none t entry m.world k e))
      made m entry k p (some s) w e e' =
          (guarded-Balanced t entry s n k (b' s)).run (record m { world = w })
            (grind (arith, laws.create_some t entry m.world s k e))

      by_entry :
          (m : Manager World)
          → live m.world ≡ n
          → (r : Option (TypeEntry World)) → samples.type_registry t ≡ r
          → Post {A = A}
              (λ _. Live n)
              (λ _. Live n)
              (scope samples t no_sample body
                (create_by samples r m.world).0
                (record m { world = (create_by samples r m.world).1 }))
      by_entry m p none k = (b n).run m p
      by_entry m p (some entry) k =
          made m entry k p (entry.create m.world).0 (entry.create m.world).1 refl refl

  converted :
      (j : samples.Json) (t : String) (s : ℕ) → Balanced (outside (json_to_dds samples j t s))
  converted j t s = outside-Balanced _ (json_to_dds-live j t s)

  written : (h s : ℕ) → Balanced (outside (samples.write_any h s))
  written h s = outside-Balanced _ (laws.write_none h s)

  -- If the type tables and the writers keep count of samples as `Counted` says, then as many samples
  -- exist after `publish_json` of a topic as before it, whether it succeeds, refuses, or is left by
  -- an exception of a writer.
  pub publish_json-live :
      (topic : String) (j : samples.Json) (m : Manager World)
      → live (publish_json samples topic j m).1.world ≡ live m.world
  publish_json-live topic j m =
      either_way (live m.world) m
        (publish_json-Kept samples Live converted written with_sample-Balanced topic j) refl

  -- If the type tables and the writers keep count of samples as `Counted` says, then as many samples
  -- exist after `publish_json` of a domain, a publisher and a topic as before it, whether it
  -- succeeds, refuses, or is left by an exception of a writer.
  pub publish_json_at-live :
      (d : ℤ) (pub_name topic : String) (j : samples.Json) (m : Manager World)
      → live (publish_json_at samples d pub_name topic j m).1.world ≡ live m.world
  publish_json_at-live d pub_name topic j m =
      either_way (live m.world) m
        (publish_json_at-Kept samples Live converted written with_sample-Balanced d pub_name topic
          j)
        refl
