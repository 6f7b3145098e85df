-- ===== src/Dds/Invariant/Publish.antt =====
-- Publication leaves the entities alone.
use connext_triad.Prelude.{ℕ, ℤ, String, Option, none, some, ◌≡◌, refl, int_eq, string_eq}
use connext_triad.Dds.Samples.{json_to_dds}
use connext_triad.Dds.State.{Manager}
use connext_triad.Dds.Monad.{M, Exit, value, leave, Post, outside}
use connext_triad.Dds.Invariant.{Entities, entities}
use connext_triad.Dds.Samples.{Samples, guarded, with_sample, scope, create_sample, destroy_sample}
use connext_triad.Dds.Publish.{publish_json, publish_json_at}
use connext_triad.Dds.Invariant.Keeps.{KeepsEntities}
use connext_triad.Dds.Publish.Kept.{Kept, either_way, publish_json-Kept, publish_json_at-Kept}

module _ {World : Type 0} (samples : Samples World) where
  abbrev Same : Entities → Manager World → Type 0
  Same e m = entities m ≡ e

  abbrev Quiet : {A : Type 0} → M World A → Type 0
  Quiet = Kept Same

  outside-Quiet : {A : Type 0} (f : World → A × World) → Quiet (outside f)
  outside-Quiet f e = record { run = λ m p. p }

  with_sample-Quiet :
      (A : Type 0) (t : String) (no_sample : M World A) (body : ℕ → M World A)
      → Quiet no_sample
      → ((s : ℕ) → Quiet (body s))
      → Quiet (with_sample samples t no_sample body)
  unfolding with_sample create_sample guarded
  with_sample-Quiet A t no_sample body b b' e = record {
    run = λ m p. made m p (create_sample samples t m.world).0 (create_sample samples t m.world).1;
  }
    where
      left :
          (s : ℕ) (r : Exit A × Manager World)
          → Post (λ _. Same e) (λ _. Same e) r
          → Post {A = A}
              (λ _. Same e)
              (λ _. Same e)
              (r.0, record r.1 { world = destroy_sample samples t s r.1.world })
      left s (value a, m) k = k
      left s (leave o, m) k = k

      made :
          (m : Manager World)
          → entities m ≡ e
          → (r : Option ℕ) (w : World)
          → Post {A = A}
              (λ _. Same e)
              (λ _. Same e)
              (scope samples t no_sample body r (record m { world = w }))
      made m p none w = (b e).run (record m { world = w }) p
      made m p (some s) w =
          left s (body s (record m { world = w })) ((b' s e).run (record m { world = w }) p)

  converted : (j : samples.Json) (t : String) (s : ℕ) → Quiet (outside (json_to_dds samples j t s))
  converted j t s = outside-Quiet _

  written : (h s : ℕ) → Quiet (outside (samples.write_any h s))
  written h s = outside-Quiet _

  pub publish_json_keeps :
      (topic : String) (j : samples.Json) → KeepsEntities (publish_json samples topic j)
  publish_json_keeps topic j m =
      either_way (entities m) m
        (publish_json-Kept samples Same converted written with_sample-Quiet topic j) refl

  pub publish_json_at_keeps :
      (d : ℤ) (pub_name topic : String) (j : samples.Json)
      → KeepsEntities (publish_json_at samples d pub_name topic j)
  publish_json_at_keeps d pub_name topic j m =
      either_way (entities m) m
        (publish_json_at-Kept samples Same converted written with_sample-Quiet d pub_name topic j)
        refl
