-- ===== src/Derive.antt =====
-- zzrpc-derive/src/lib.rs: what the macro `api` takes from a trait and what it generates from it,
-- but for the code of the tasks. The syntax of types and the change of case are those of the crates
-- syn and convert_case, a parameter; what the source distinguishes of the rest of the syntax has a
-- constructor here. A panic of the macro is `none`.
pub mod Fields
pub mod Laws
pub mod Panics
pub mod Serving
use Prim.Native.String.{String}
use text.Mathlib.Text.{◌==◌}
use zzrpc.Prelude.{
  Bool, true, false, Option, none, some, is_some, List, [], ◌∷◌, map, if◌then◌else◌,
}

pub data GenericArgument (Ty : Type 0) : Type 0 where
  assoc_type : (ident : String) → Ty → GenericArgument Ty
  other : GenericArgument Ty

pub data PathArguments (Ty : Type 0) : Type 0 where
  angle_bracketed : List (GenericArgument Ty) → PathArguments Ty
  other : PathArguments Ty

pub record PathSegment (Ty : Type 0) : Type 0 where
  pub ident : String
  pub arguments : PathArguments Ty

pub data TypeParamBound (Ty : Type 0) : Type 0 where
  trait_ : (segments : List (PathSegment Ty)) → TypeParamBound Ty
  other : TypeParamBound Ty

pub record Syntax : Type 1 where
  pub Ty : Type 0
  pub unit : Ty
  -- The bounds of a `Type::ImplTrait`; `none` for any other type.
  pub impl_trait : Ty → Option (List (TypeParamBound Ty))
  pub to_pascal : String → String
  pub to_snake : String → String

pub data ReturnType (Ty : Type 0) : Type 0 where
  default : ReturnType Ty
  type_ : Ty → ReturnType Ty

-- A receiver, an argument with an identifier for its pattern, or one with another pattern.
pub data FnArg (Ty : Type 0) : Type 0 where
  receiver : FnArg Ty
  typed : String → Ty → FnArg Ty
  other : Ty → FnArg Ty

pub record Method (Ty : Type 0) : Type 0 where
  pub ident : String
  pub is_async : Bool
  pub has_generics : Bool
  pub inputs : List (FnArg Ty)
  pub output : ReturnType Ty

pub data TraitItem (Ty : Type 0) : Type 0 where
  fn : Method Ty → TraitItem Ty
  other : TraitItem Ty

pub record ItemTrait (Ty : Type 0) : Type 0 where
  pub has_generics : Bool
  pub items : List (TraitItem Ty)

-- `ValueRequest<T, ..>` or `StreamRequest<T, ..>`
pub data Future (Ty : Type 0) : Type 0 where
  value_request stream_request : Ty → Future Ty

-- A method of the modified trait, or of its implementation for `Consumer`: not async.
pub record Signature (Ty : Type 0) : Type 0 where
  pub ident : String
  pub inputs : List (FnArg Ty)
  pub output : Future Ty

-- A variant of the generated `Response`.
pub record Variant (Ty : Type 0) : Type 0 where
  pub ident : String
  pub is_stream : Bool
  pub result : Ty

-- A method of the implementation for `Consumer`: the variant and the fields of its request.
pub record Call (Ty : Type 0) : Type 0 where
  pub signature : Signature Ty
  pub variant : String
  pub fields : List String

-- What the macro `api` puts out, but for the code of the tasks.
pub record Output (Ty : Type 0) : Type 0 where
  pub signatures : List (Signature Ty)  -- of the modified trait, beside two associated types
  pub requests : List (String × List (String × Ty))
  pub responses : List (Variant Ty)
  pub calls : List (Call Ty)

unfoldable pub methods : {Ty : Type 0} → List (TraitItem Ty) → List (Method Ty)
methods [] = []
methods (TraitItem.fn m ∷ items) = m ∷ methods items
methods (TraitItem.other ∷ items) = methods items

unfoldable pub skip_self : {Ty : Type 0} → List (FnArg Ty) → List (String × Ty)
skip_self [] = []
skip_self (FnArg.typed name ty ∷ inputs) =
    let rest = skip_self inputs in if name == "self" then rest else (name, ty) ∷ rest
skip_self (FnArg.receiver ∷ inputs) = skip_self inputs
skip_self (FnArg.other ty ∷ inputs) = skip_self inputs

unfoldable pub pattern_arguments : {Ty : Type 0} → List (FnArg Ty) → List String
pattern_arguments [] = []
pattern_arguments (FnArg.typed name ty ∷ inputs) =
    let rest = pattern_arguments inputs in if name == "self" then rest else name ∷ rest
pattern_arguments (FnArg.receiver ∷ inputs) = pattern_arguments inputs
pattern_arguments (FnArg.other ty ∷ inputs) = pattern_arguments inputs

unfoldable pub item_type : {Ty : Type 0} → PathArguments Ty → Option Ty
item_type (PathArguments.angle_bracketed (GenericArgument.assoc_type ident ty ∷ [])) =
    if ident == "Item" then some ty else none
item_type _ = none

unfoldable pub extract_stream_item_type : {Ty : Type 0} → List (TypeParamBound Ty) → Option Ty
unfolding item_type
extract_stream_item_type (TypeParamBound.trait_ (segment ∷ []) ∷ []) =
    if segment.ident == "Stream" then item_type segment.arguments else none
extract_stream_item_type _ = none

infixl 5 ◌>>=◌
abbrev pub ◌>>=◌ : {A B : Type 0} → Option A → (A → Option B) → Option B
none >>= f = none
some a >>= f = f a

-- Each method must pass; the first that does not makes the macro panic.
abbrev pub each : {A B : Type 0} → (A → Option B) → List A → Option (List B)
each f [] = some []
each f (x ∷ xs) = do y ← f x; ys ← each f xs; some (y ∷ ys)

module _ (syn : Syntax) where
  unfoldable pub extract_return_type : ReturnType syn.Ty → Option syn.Ty
  unfolding extract_stream_item_type
  extract_return_type ReturnType.default = some syn.unit
  extract_return_type (ReturnType.type_ ty) = elim (syn.impl_trait ty) [
    | some bounds ↦ extract_stream_item_type bounds
    | none ↦ some ty
  ]

  unfoldable pub is_stream : ReturnType syn.Ty → Bool
  is_stream ReturnType.default = false
  is_stream (ReturnType.type_ ty) = is_some (syn.impl_trait ty)

  -- The new return type of a method in `modify_trait`.
  unfoldable pub future : ReturnType syn.Ty → Option (Future syn.Ty)
  future ReturnType.default = some (Future.value_request syn.unit)
  future (ReturnType.type_ ty) = elim (syn.impl_trait ty) [
    | some bounds ↦ do t ← extract_stream_item_type bounds; some (Future.stream_request t)
    | none ↦ some (Future.value_request ty)
  ]

  -- The same in `impl_api`, which has its own match.
  unfoldable pub call_future : ReturnType syn.Ty → Option (Future syn.Ty)
  call_future ReturnType.default = some (Future.value_request syn.unit)
  call_future (ReturnType.type_ ty) = elim (syn.impl_trait ty) [
    | some bounds ↦ do t ← extract_stream_item_type bounds; some (Future.stream_request t)
    | none ↦ some (Future.value_request ty)
  ]

  unfoldable pub modify_method : Method syn.Ty → Option (Signature syn.Ty)
  unfolding future
  modify_method m =
      if m.is_async
      then (if m.has_generics then none else (do
        f ← future m.output
        some (record { ident = m.ident; inputs = m.inputs; output = f })))
      else none

  -- The methods of the modified trait.
  unfoldable pub modify_trait : ItemTrait syn.Ty → Option (List (Signature syn.Ty))
  unfolding modify_method methods
  modify_trait item = if item.has_generics then none else each modify_method (methods item.items)

  -- The variants of the generated `Request`, with their fields.
  unfoldable pub request : List (TraitItem syn.Ty) → List (String × List (String × syn.Ty))
  unfolding methods skip_self
  request items = map (λ m. (syn.to_pascal m.ident, skip_self m.inputs)) (methods items)

  unfoldable pub variant : Method syn.Ty → Option (Variant syn.Ty)
  unfolding extract_return_type is_stream
  variant m = do
    t ← extract_return_type m.output
    some (record { ident = syn.to_pascal m.ident; is_stream = is_stream m.output; result = t })

  unfoldable pub response : List (TraitItem syn.Ty) → Option (List (Variant syn.Ty))
  unfolding variant methods
  response items = each variant (methods items)

  unfoldable pub api_method : Method syn.Ty → Option (Call syn.Ty)
  unfolding call_future pattern_arguments
  api_method m = do
    f ← call_future m.output
    some (record {
      signature = record { ident = m.ident; inputs = m.inputs; output = f };
      variant = syn.to_pascal m.ident;
      fields = pattern_arguments m.inputs;
    })

  unfoldable pub impl_api : List (TraitItem syn.Ty) → Option (List (Call syn.Ty))
  unfolding api_method methods
  impl_api items = each api_method (methods items)

  -- The macro `api`.
  unfoldable pub api : ItemTrait syn.Ty → Option (Output syn.Ty)
  unfolding modify_trait request response impl_api
  api item = do
    signatures ← modify_trait item
    responses ← response item.items
    calls ← impl_api item.items
    some (record {
      signatures = signatures;
      requests = request item.items;
      responses = responses;
      calls = calls;
    })
