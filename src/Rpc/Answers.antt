-- ===== src/Rpc/Answers.antt =====
-- What the answer to a request says, and what then has become of the manager.
pub mod Handlers
use connext_triad.Prelude.{
  ◌∷◌, [], true, String, Bool, ◌≡◌, refl, if◌then◌else◌, false, sym, ◌∙◌, subst, ap, arith, pos,
  ◌⊎◌, inl, inr, ℕ,
}
use connext_triad.Rpc.Json.{JsonLib, Result, result, thrown}
use connext_triad.Rpc.Backend.{Backend, Command, perform, Reply, accepted, refused, broken}
use connext_triad.Rpc.Handler.{
  H, ◌>>=◌, lift, pure, catch_with, Answer, no_answer, Fields, message, report, error_fields,
}
use connext_triad.Rpc.Process.{conclude, settle, internal_error}

module _ (lib : JsonLib) where
  open lib use {Json, number, boolean}

  -- `{"ok": true, "result": …, …}`
  abbrev pub IsSuccess : Fields lib → Type 0
  IsSuccess rsp =
      (found : Json) × (rest : Fields lib) × (rsp ≡ ("ok", boolean true) ∷ ("result", found) ∷ rest)

  -- `{"ok": false, "err": …, …}`
  abbrev pub IsError : ℕ → Fields lib → Type 0
  IsError err rsp = (rest : Fields lib) × (rsp ≡ error_fields lib err rest)

module _ {lib : JsonLib} (backend : Backend lib) where
  open backend use {State}

  abbrev pub AtMostOne : State → State → Type 0
  AtMostOne s s' = (s' ≡ s) ⊎ ((c : Command lib) × (s' ≡ perform backend c s))

  -- The answer `rsp` to a request that found the manager in `s` and left it in `s'`.
  pub data Answered (s : State) (rsp : Fields lib) (s' : State) : Type 0 where
    told : IsSuccess lib rsp → s' ≡ s → Answered s rsp s'
    granted : (c : Command lib) → IsSuccess lib rsp → s' ≡ perform backend c s → Answered s rsp s'
    failed : (c : Command lib) → IsError lib 4 rsp → s' ≡ perform backend c s → Answered s rsp s'
    unsupported : IsError lib 4 rsp → s' ≡ s → Answered s rsp s'
    rejected : IsError lib 6 rsp → s' ≡ s → Answered s rsp s'
    crashed : IsError lib 7 rsp → AtMostOne s s' → Answered s rsp s'

  pub once : {s : State} {rsp : Fields lib} {s' : State} → Answered s rsp s' → AtMostOne s s'
  once (told _ e) = inl e
  once (granted c _ e) = inr (c, e)
  once (failed c _ e) = inr (c, e)
  once (unsupported _ e) = inl e
  once (rejected _ e) = inl e
  once (crashed _ e) = e

  abbrev pub Ends : State → Result (Answer lib) × State → Type 0
  Ends s (r, s') = Answered s (conclude backend r) s'

  pub record Sound (h : H State (Answer lib)) : Type 0 where
    pub run : (s : State) → Ends s (h s)

  -- An operation that only reads the request.
  pub record Reads {A : Type 0} (op : H State A) : Type 0 where
    pub same : (s : State) → (op s).1 ≡ s

  pub lift-Reads : {A : Type 0} (r : Result A) → Reads (lift r)
  lift-Reads r = record { same = λ s. refl }

  pub bind-Reads :
      {A B : Type 0} {op : H State A} {f : A → H State B}
      → Reads op
      → ((a : A) → Reads (f a))
      → Reads (op >>= f)
  unfolding ◌>>=◌
  bind-Reads {A} {B} {op} {f} h k = record { same = λ s. after s (op s) (h.same s) }
    where
      after :
          (s : State) (r : Result A × State)
          → r.1 ≡ s
          → (elim r.0 as (λ _. Result B × State) [
            | result a ↦ f a r.1
            | thrown what ↦ (thrown what, r.1)
          ]).1
            ≡ s
      after s (result a, s') e = (k a).same s' ∙ e
      after s (thrown what, s') e = e

  -- A request whose reading throws is answered with an internal error.
  pub bind-Sound :
      {A : Type 0} {op : H State A} {f : A → H State (Answer lib)}
      → Reads op
      → ((a : A) → Sound (f a))
      → Sound (op >>= f)
  unfolding ◌>>=◌ conclude internal_error
  bind-Sound {A} {op} {f} h k = record { run = λ s. after s (op s) (h.same s) }
    where
      after :
          (s : State) (r : Result A × State)
          → r.1 ≡ s
          → Ends s (elim r.0 as (λ _. Result (Answer lib) × State) [
            | result a ↦ f a r.1
            | thrown what ↦ (thrown what, r.1)
          ])
      after s (result a, s') e = subst (λ x. Ends x (f a s')) e ((k a).run s')
      after s (thrown what, s') e = crashed (_, refl) (inl e)

  pub report-Sound :
      {A : Type 0} (call : State → Reply A × State) (made : A → lib.Json) (c : Command lib)
      → ((s : State) → (call s).1 ≡ perform backend c s)
      → Sound (report lib call made)
  unfolding report conclude settle internal_error
  report-Sound {A} call made c h = record { run = λ s. after s (call s) (h s) }
    where
      after :
          (s : State) (r : Reply A × State)
          → r.1 ≡ perform backend c s
          → Ends s (report lib {State = State} (λ _. r) made s)
      after s (accepted a, s') e = granted c (_, _, refl) e
      after s (refused category reason, s') e = failed c (_, refl) e
      after s (broken what, s') e = crashed (_, refl) (inr (c, e))

  pub if-Sound :
      {h k : H State (Answer lib)} (b : Bool) → Sound h → Sound k → Sound (if b then h else k)
  if-Sound true p q = p
  if-Sound false p q = q

  -- No answer: the request is reported as unsupported.
  pub no_answer-Sound : Sound (pure (no_answer lib))
  unfolding conclude settle
  no_answer-Sound = record { run = λ s. unsupported (_, refl) refl }

  pub message-Sound : (what : String) → Sound (pure (message lib 6 what))
  unfolding conclude settle
  message-Sound what = record { run = λ s. rejected (_, refl) refl }

  -- What follows a call: it reads what the call gave, and succeeds or reports an error.
  abbrev pub LateFields : Fields lib → Type 0
  LateFields rsp = IsSuccess lib rsp ⊎ (IsError lib 4 rsp ⊎ IsError lib 7 rsp)

  pub record Late (h : H State (Answer lib)) : Type 0 where
    pub finishes : (s : State) → ((h s).1 ≡ s) × LateFields (conclude backend (h s).0)

  pub bind-Late :
      {A : Type 0} {op : H State A} {f : A → H State (Answer lib)}
      → Reads op
      → ((a : A) → Late (f a))
      → Late (op >>= f)
  unfolding ◌>>=◌ conclude internal_error
  bind-Late {A} {op} {f} h k = record { finishes = λ s. after s (op s) (h.same s) }
    where
      after :
          (s : State) (r : Result A × State)
          → r.1 ≡ s
          → let out : Result (Answer lib) × State = elim r.0 [
            | result a ↦ f a r.1
            | thrown what ↦ (thrown what, r.1)
          ] in
            (out.1 ≡ s) × LateFields (conclude backend out.0)
      after s (result a, s') e = (((k a).finishes s').0 ∙ e, ((k a).finishes s').1)
      after s (thrown what, s') e = (e, inr (inr (_, refl)))

  pub call-Sound :
      {A : Type 0} (call : H State A) {f : A → H State (Answer lib)} (c : Command lib)
      → ((s : State) → (call s).1 ≡ perform backend c s)
      → ((a : A) → Late (f a))
      → Sound (call >>= f)
  unfolding ◌>>=◌ conclude internal_error
  call-Sound {A} call {f} c h k = record { run = λ s. after s (call s) (h s) }
    where
      late :
          (s : State) (rsp : Fields lib) (s' : State)
          → s' ≡ perform backend c s
          → LateFields rsp
          → Answered s rsp s'
      late s rsp s' e (inl g) = granted c g e
      late s rsp s' e (inr (inl b)) = failed c b e
      late s rsp s' e (inr (inr b)) = crashed b (inr (c, e))

      after :
          (s : State) (r : Result A × State)
          → r.1 ≡ perform backend c s
          → Ends s (elim r.0 as (λ _. Result (Answer lib) × State) [
            | result a ↦ f a r.1
            | thrown what ↦ (thrown what, r.1)
          ])
      after s (result a, s') e = late s _ _ (((k a).finishes s').0 ∙ e) ((k a).finishes s').1
      after s (thrown what, s') e = crashed (_, refl) (inr (c, e))

  -- The error of the handler is reported, whatever was called before.
  pub catch_with-Sound :
      {h : H State (Answer lib)} (what : String)
      → Sound h
      → Sound (catch_with (λ _. message lib 4 what) h)
  unfolding catch_with conclude settle
  catch_with-Sound {h} what t = record { run = λ s. after s (h s) (t.run s) }
    where
      reported :
          (s s' : State)
          → AtMostOne s s'
          → Answered s (error_fields lib 4 (("msg", lib.text what) ∷ [])) s'
      reported s s' (inl e) = unsupported (_, refl) e
      reported s s' (inr (c, e)) = failed c (_, refl) e

      after :
          (s : State) (r : Result (Answer lib) × State)
          → Ends s r
          → Ends s (catch_with {State = State} (λ _. message lib 4 what) (λ _. r) s)
      after s (result a, s') t = t
      after s (thrown w, s') t = reported s s' (once t)
