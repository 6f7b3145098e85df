-- ===== src/Rpc/Handler.antt =====
-- A handler of RtpDdsGateway/src/ipc_adapter.cpp changes the backend and ends with a value or an
-- exception. An answer is `ok` with the fields of `rsp`, none where `rsp` is left empty.
use connext_triad.Prelude.{
  ℕ, ◌∷◌, [], List, pos, String, Bool, true, false, if◌then◌else◌, nat_beq, Option, none, some,
}
use Prim.Native.Char.{Char, code}
use connext_triad.Rpc.Json.{JsonLib, Result, result, thrown}
use connext_triad.Rpc.Backend.{Reply, accepted, refused, broken}

abbrev pub H : Type 0 → Type 0 → Type 0
H State A = State → Result A × State

module _ {State : Type 0} where
  infixl 5 ◌>>=◌
  unfoldable pub ◌>>=◌ : {A B : Type 0} → H State A → (A → H State B) → H State B
  ◌>>=◌ op f s =
      let (r, s') = op s in elim r [ result a ↦ f a s' | thrown what ↦ (thrown what, s') ]

  abbrev pub pure : {A : Type 0} → A → H State A
  pure a s = (result a, s)

  abbrev pub lift : {A : Type 0} → Result A → H State A
  lift r s = (r, s)

  -- `try { … } catch (const std::exception&) { … }`
  unfoldable pub catch_with : {A : Type 0} → (String → A) → H State A → H State A
  catch_with handler op s =
      let (r, s') = op s in
      elim r [ result a ↦ (result a, s') | thrown what ↦ (result (handler what), s') ]

abbrev pub is_colon : ℕ → Bool
is_colon c = nat_beq c 58

-- What follows a leading colon.
abbrev after_colon : String → Option String
after_colon String.[] = none
after_colon (String.◌∷◌ d t) = if is_colon (code d) then some t else none

abbrev prepend : Char → Option (String × String) → Option (String × String)
prepend c none = none
prepend c (some (a, b)) = some (String.◌∷◌ c a, b)

-- The texts before and after the first `::`.
unfoldable pub split_at_colons : String → Option (String × String)
split_at_colons String.[] = none
split_at_colons (String.◌∷◌ c s) =
    let later = split_at_colons s in
    elim (if is_colon (code c) then after_colon s else none) [
      | some t ↦ some ("", t)
      | none ↦ prepend c later
    ]

-- `lib` and `prof`, both empty where `qos` has no `::`.
unfoldable pub split_qos : String → String × String
unfolding split_at_colons
split_qos qos = elim (split_at_colons qos) [ none ↦ ("", "") | some pair ↦ pair ]

module _ (lib : JsonLib) where
  open lib use {Json, object, text, number, boolean}

  abbrev pub Fields : Type 0
  Fields = List (String × Json)

  pub record Answer : Type 0 where
    pub ok : Bool
    pub rsp : Fields

  -- `rsp = {{"ok", true}, {"result", …}}; ok = true;`
  abbrev pub answer_ok : Json → Answer
  answer_ok found = record { ok = true; rsp = ("ok", boolean true) ∷ ("result", found) ∷ [] }

  abbrev pub action : String → Fields → Json
  action name fields = object (("action", text name) ∷ fields)

  -- A lambda that returns and leaves `rsp` as it was: null.
  abbrev pub no_answer : Answer
  no_answer = record { ok = false; rsp = [] }

  abbrev pub error_fields : ℕ → Fields → Fields
  error_fields err fields = ("ok", boolean false) ∷ ("err", number (pos err)) ∷ fields

  abbrev pub answer_error : ℕ → Fields → Answer
  answer_error err fields = record { ok = false; rsp = error_fields err fields }

  abbrev pub message : ℕ → String → Answer
  message err what = answer_error err (("msg", text what) ∷ [])

  -- A call of the manager whose `DdsResult` the answer reports.
  unfoldable pub report :
      {State A : Type 0} → (State → Reply A × State) → (A → Json) → H State Answer
  report call made s =
      let (reply, s') = call s in
      elim reply [
        | accepted a ↦ (result (answer_ok (made a)), s')
        | refused category reason ↦ (
          result (answer_error 4 (("category", number (pos category)) ∷ ("msg", text reason) ∷ [])),
          s',
        )
        | broken what ↦ (thrown what, s')
      ]
