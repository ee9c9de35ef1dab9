-- ===== src/Derive/Fields/Typing.antt =====
-- zzrpc-derive/src/lib.rs, `consumer`: the fields that the generated code names are declared, with
-- the types that the code needs. Here are the types that Rust gives to the expressions.
use Prim.Native.String.{String}
use zzrpc.Prelude.{◌≡◌, Bool, true, false, Option, none, some, List, [], ◌∷◌, map, if◌then◌else◌}
use zzrpc.Derive.{Future}
use zzrpc.Derive.Fields.{FieldType, Fields, Init, Channel, ConsumerCode, concat}
use zzrpc.Derive.Fields.Resolve.{field}

module _ {Ty : Type 0} where
  abbrev pub future_of : Bool → Ty → Future Ty
  future_of b t = if b then Future.stream_request t else Future.value_request t

  -- The requests that a table holds, for code that takes it for the table of a stream method, or of
  -- a value method; `none` where Rust refuses the code.
  abbrev pub held : Bool → Option (FieldType Ty) → Option (Future Ty)
  held true (some (FieldType.stream_table t)) = some (Future.stream_request t)
  held false (some (FieldType.value_table t)) = some (Future.value_request t)
  held b _ = none

  -- The requests that a receiver brings.
  abbrev pub received : Bool → Option (FieldType Ty) → Option (Future Ty)
  received b (some (FieldType.receiver t)) = some (future_of b t)
  received b _ = none

  -- What `StreamRequest::new` or `ValueRequest::new` makes from a sender.
  abbrev pub made : Bool → Option (FieldType Ty) → Option (Future Ty)
  made b (some (FieldType.arc (FieldType.sender t))) = some (future_of b t)
  made b _ = none

  abbrev pub locals : List (Channel Ty) → Fields Ty
  locals channels = concat (
      map (λ c. (c.tx, FieldType.sender c.result) ∷ (c.rx, FieldType.receiver c.result) ∷ [])
        channels)

  -- The type of an expression in a struct literal. That of `HashMap::new()` is inferred from the
  -- field.
  abbrev pub init_type : Fields Ty → Init → Option (FieldType Ty)
  init_type scope Init.zero = some FieldType.usize
  init_type scope Init.new_map = none
  init_type scope (Init.local x) = field x scope
  init_type scope (Init.arc_new x) = elim (field x scope) [
    | some t ↦ some (FieldType.arc t)
    | none ↦ none
  ]

  abbrev pub needed : FieldType Ty → Option (FieldType Ty)
  needed (FieldType.value_table t) = none
  needed (FieldType.stream_table t) = none
  needed FieldType.usize = some FieldType.usize
  needed (FieldType.sender t) = some (FieldType.sender t)
  needed (FieldType.receiver t) = some (FieldType.receiver t)
  needed (FieldType.arc t) = some (FieldType.arc t)

  -- A field of a struct literal with the type of its value, and a field of a struct.
  abbrev pub given : Fields Ty → String × Init → String × Option (FieldType Ty)
  given scope i = (i.0, init_type scope i.1)

  abbrev pub declared : String × FieldType Ty → String × Option (FieldType Ty)
  declared f = (f.0, needed f.1)

  -- The struct literals give every field a value of its type, and each piece of code for a method
  -- is for requests of the type that the method returns.
  abbrev pub WellTyped : ConsumerCode Ty → List (Option (Future Ty)) → Type 0
  WellTyped code outputs =
      (map (given (locals code.impl_state.channels)) code.impl_state.senders
        ≡ map declared code.senders)
      × (map (given (locals code.impl_state.channels)) code.impl_state.items
          ≡ map declared code.state)
      × (map (λ h. held h.is_stream (field h.requests code.state)) code.impl_state.handlers
          ≡ outputs)
      × (map (λ d. held d.is_stream (field d.requests code.state)) code.impl_state.drainers
          ≡ outputs)
      × (map (λ a. held a.is_stream (field a.requests code.state)) code.arms ≡ outputs)
      × (map (λ a. received a.is_stream (field a.receiver code.state)) code.arms ≡ outputs)
      × (map (λ n. made n.is_stream (field n.sender code.senders)) code.futures ≡ outputs)
