-- ===== src/Dds/Publish/Kept.antt =====
-- What each step of a publication keeps, the whole publication keeps.
use connext_triad.Prelude.{
  ℕ, ◌+◌, ℤ, String, Bool, true, false, Option, none, some, List, [], ◌∷◌, Map, lookup, int_eq,
  string_eq,
}
use connext_triad.Dds.External.{done, raised}
use connext_triad.Dds.State.{Manager, Entry, Holders, Outcome, Reason}
use connext_triad.Dds.Monad.{
  M, Exit, value, leave, Post, Triple, bind, bind_gets, finish, give_up, strengthen, outside,
  exit_if,
}
use connext_triad.Dds.Samples.{Samples, json_to_dds, with_sample}
use connext_triad.Dds.Publish.{
  write_entries, fill_and_write, publish_entries, publish_found, publish_publishers,
  publish_domains, dumped, publish_json, find_or_refuse, type_or_refuse, fill_and_write_at,
  publish_json_at,
}

-- `op` keeps each of the assertions `I n`, whichever way it ends.
abbrev pub Kept : {World J A : Type 0} → (J → Manager World → Type 0) → M World A → Type 0
Kept {J = J} I op = (n : J) → Triple (I n) op (λ _. I n) (λ _. I n)

pub either_way :
    {World J A : Type 0} {I : J → Manager World → Type 0} {op : M World A} (n : J)
    (m : Manager World)
    → Kept I op
    → I n m
    → I n (op m).1
either_way {World} {J} {A} {I} {op} n m t p = ended (op m) ((t n).run m p)
  where
    ended : (r : Exit A × Manager World) → Post (λ _. I n) (λ _. I n) r → I n r.1
    ended (value a, m') k = k
    ended (leave o, m') k = k

module _ {World : Type 0} (samples : Samples World) {J : Type 0} (I : J → Manager World → Type 0)
    (converted : (j : samples.Json) (t : String) (s : ℕ)
      → Kept I (outside (json_to_dds samples j t s)))
    (written : (h s : ℕ) → Kept I (outside (samples.write_any h s)))
    (sampled : (A : Type 0) (t : String) (no_sample : M World A) (body : ℕ → M World A)
      → Kept I no_sample
      → ((s : ℕ) → Kept I (body s))
      → Kept I (with_sample samples t no_sample body)) where
  exit_if-Kept : (b : Bool) (o : Outcome) → Kept I (exit_if b o)
  exit_if-Kept true o n = record { run = λ m p. p }
  exit_if-Kept false o n = record { run = λ m p. p }

  write_entries-Kept : (s : ℕ) (es : List Entry) → Kept I (write_entries samples s es)
  unfolding write_entries
  write_entries-Kept s [] n = finish (λ m p. p)
  write_entries-Kept s (e ∷ es) n =
      bind (λ _. I n) (written e.holder s n)
        (elim [ done ↦ write_entries-Kept s es n | raised what ↦ give_up (λ m p. p) ])

  publish_entries-Kept :
      (d : ℤ) (topic : String) (j : samples.Json) (es : List Entry)
      → Kept I (publish_entries samples d topic j es)
  unfolding publish_entries fill_and_write
  publish_entries-Kept d topic j es n = bind_gets (elim [
    | none ↦ finish (λ m p. p.0)
    | some t ↦
        strengthen
          (sampled _ t _ _ (λ k. finish (λ m p. p))
            (λ s k.
              bind (λ _. I k) (converted j t s k)
                (elim [
                  | false ↦ finish (λ m p. p)
                  | true ↦ bind (λ _. I k) (write_entries-Kept s es k) (λ _. finish (λ m p. p))
                ]))
            n)
          (λ m p. p.0)
  ])

  publish_found-Kept :
      (d : ℤ) (topic : String) (j : samples.Json) (es : Option (List Entry))
      → Kept I (publish_found samples d topic j es)
  unfolding publish_found
  publish_found-Kept d topic j none n = finish (λ m p. p)
  publish_found-Kept d topic j (some es) n = publish_entries-Kept d topic j es n

  publish_publishers-Kept :
      (d : ℤ) (topic : String) (j : samples.Json) (names : Map String (Map String (List Entry)))
      (total : ℕ)
      → Kept I (publish_publishers samples d topic j names total)
  unfolding publish_publishers
  publish_publishers-Kept d topic j [] total n = finish (λ m p. p)
  publish_publishers-Kept d topic j ((_, topics) ∷ rest) total n =
      bind (λ _. I n) (publish_found-Kept d topic j (lookup topic topics) n)
        λ written. publish_publishers-Kept d topic j rest (total + written) n

  publish_domains-Kept :
      (topic : String) (j : samples.Json) (writers : Holders) (total : ℕ)
      → Kept I (publish_domains samples topic j writers total)
  unfolding publish_domains
  publish_domains-Kept topic j [] total n = finish (λ m p. p)
  publish_domains-Kept topic j ((d, names) ∷ rest) total n =
      bind (λ _. I n) (publish_publishers-Kept d topic j names total n)
        λ sum. publish_domains-Kept topic j rest sum n

  dumped-Kept : (error : Option String) → Kept I (dumped samples error)
  unfolding dumped
  dumped-Kept none n = finish (λ m p. p)
  dumped-Kept (some what) n = give_up (λ m p. p)

  pub publish_json-Kept :
      (topic : String) (j : samples.Json) (n : J)
      → Triple (I n) (publish_json samples topic j) (λ _. I n) (λ _. I n)
  unfolding publish_json
  publish_json-Kept topic j n =
      bind (λ _. I n) (dumped-Kept _ n)
        λ _.
          bind (λ _. I n) (exit_if-Kept _ _ n)
            λ _. bind_gets λ writers.
              bind (λ _. I n) (strengthen (publish_domains-Kept topic j writers 0 n) (λ m p. p.0))
                λ total. bind (λ _. I n) (exit_if-Kept _ _ n) λ _. finish (λ m p. p)

  find_or_refuse-Kept :
      {V : Type 0} (found : Option V) (missing : Reason)
      → Kept I (find_or_refuse samples found missing)
  unfolding find_or_refuse
  find_or_refuse-Kept none missing n = give_up (λ m p. p)
  find_or_refuse-Kept (some v) missing n = finish (λ m p. p)

  type_or_refuse-Kept :
      (found : Option String) (missing : Reason) → Kept I (type_or_refuse samples found missing)
  unfolding type_or_refuse
  type_or_refuse-Kept none missing n = give_up (λ m p. p)
  type_or_refuse-Kept (some t) missing n =
      bind (λ _. I n) (exit_if-Kept _ _ n) λ _. finish (λ m p. p)

  pub publish_json_at-Kept :
      (d : ℤ) (pub_name topic : String) (j : samples.Json) (n : J)
      → Triple (I n) (publish_json_at samples d pub_name topic j) (λ _. I n) (λ _. I n)
  unfolding publish_json_at fill_and_write_at
  publish_json_at-Kept d pub_name topic j n =
      bind (λ _. I n) (dumped-Kept _ n)
        λ _.
          bind (λ _. I n) (exit_if-Kept _ _ n)
            λ _. bind_gets λ writers.
              strengthen
                (bind (λ _. I n) (find_or_refuse-Kept _ _ n)
                  λ names.
                    bind (λ _. I n) (find_or_refuse-Kept _ _ n)
                      λ topics.
                        bind (λ _. I n) (find_or_refuse-Kept _ _ n)
                          λ es. bind_gets λ found.
                            strengthen
                              (bind (λ _. I n) (type_or_refuse-Kept _ _ n)
                                λ type_name.
                                  sampled _ type_name _ _ (λ k. give_up (λ m p. p))
                                    (λ s k.
                                      bind (λ _. I k) (converted j type_name s k)
                                        λ converted.
                                          bind (λ _. I k) (exit_if-Kept _ _ k)
                                            λ _.
                                              bind (λ _. I k) (write_entries-Kept s es k)
                                                λ _. finish (λ m p. p))
                                    n)
                              (λ m p. p.0))
                (λ m p. p.0)
