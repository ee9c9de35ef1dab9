-- ===== src/Derive/Serving.antt =====
-- zzrpc-derive/src/lib.rs, `impl_produce`: the arm of the producer for each variant of `Request`,
-- and what a call of the consumer's method becomes there. What the tasks of the producer do around
-- the call is modelled with the producer.
pub mod Arguments
use Prim.Native.String.{String}
use mathlib.Core.List.{Memᴰ}
use text.Mathlib.Text.{◌==◌}
use zzrpc.Prelude.{
  ◌≡◌, refl, sym, ap, ◌∙◌, inl, inr, Bool, true, false, Bool-cases, Option, none, some, List, [],
  ◌∷◌, map, length, if◌then◌else◌, arith,
}
use zzrpc.Derive.{
  ◌>>=◌, Syntax, Method, TraitItem, Call, methods, each, pattern_arguments, is_stream, api_method,
}
use zzrpc.Derive.Fields.Resolve.{mem, distinct, field, distinct-head, here, pass}

-- `Request::variant { fields } => .. me.method(arguments) .. Response::response(..)`
pub record ServeArm : Type 0 where
  pub variant : String
  pub fields : List String
  pub method : String
  pub arguments : List String
  pub response : String
  pub is_stream : Bool

-- A value of `Request`: the variant and the value of each field.
abbrev pub Request : Type 0 → Type 0
Request V = String × List (String × V)

-- The values of variables with some names, with the names: `{ a, b }` in a struct literal, where it
-- fills in the fields, and in a pattern, where it binds variables to them. `none` where a name means
-- nothing.
abbrev pub named : {V : Type 0} → List (String × V) → List String → Option (List (String × V))
named scope names = each (λ x. do v ← field x scope; some (x, v)) names

-- The arguments of a function with their values. An argument with a pattern that is no identifier has
-- no place here: no name stands for it.
abbrev pub bind : {V : Type 0} → List String → List V → List (String × V)
bind [] values = []
bind (x ∷ xs) [] = []
bind (x ∷ xs) (v ∷ values) = (x, v) ∷ bind xs values

-- The values of the arguments of a call.
abbrev pub given : {V : Type 0} → List (String × V) → List String → Option (List V)
given scope names = each (λ x. field x scope) names

abbrev pub find_arm : String → List ServeArm → Option ServeArm
find_arm x [] = none
find_arm x (a ∷ arms) = if a.variant == x then some a else find_arm x arms

-- The method that `match request` calls, with its arguments, and the variant of its responses.
abbrev pub serve :
    {V : Type 0} → List ServeArm → Request V → Option (String × List V × String × Bool)
serve arms (x, values) = do
  arm ← find_arm x arms
  scope ← named values arm.fields
  arguments ← given scope arm.arguments
  some (arm.method, arguments, arm.response, arm.is_stream)

module _ (syn : Syntax) where
  unfoldable pub serve_arm : Method syn.Ty → ServeArm
  serve_arm m = record {
    variant = syn.to_pascal m.ident;
    fields = pattern_arguments m.inputs;
    method = m.ident;
    arguments = pattern_arguments m.inputs;
    response = syn.to_pascal m.ident;
    is_stream = is_stream syn m.output;
  }

  -- The arms of `match request`.
  unfoldable pub impl_produce : List (TraitItem syn.Ty) → List ServeArm
  unfolding serve_arm
  impl_produce items = map serve_arm (methods items)

  -- The request that a method of the consumer makes from the values of its arguments.
  abbrev pub request_of_call : {V : Type 0} → Call syn.Ty → List V → Option (Request V)
  request_of_call c values = do
    fields ← named (bind (pattern_arguments c.signature.inputs) values) c.fields
    some (c.variant, fields)
