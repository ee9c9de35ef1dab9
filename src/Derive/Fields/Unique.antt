-- ===== src/Derive/Fields/Unique.antt =====
-- zzrpc-derive/src/lib.rs, `consumer_senders` and `consumer_state`: whether the generated structs
-- declare a field twice, which Rust refuses.
use mathlib.Core.List.{map-map}
use mathlib.Core.Option.{some-injective}
use zzrpc.Prelude.{◌≡◌, sym, ap, ◌∙◌, not, ◌&&◌, some, List, map}
use zzrpc.Derive.{Syntax, ItemTrait, Signature, methods, modify_trait}
use zzrpc.Derive.Laws.{each-api}
use zzrpc.Derive.Fields.{FieldType, ConsumerCode, consumer}
use zzrpc.Derive.Fields.Names.{
  requests-receiver, receiver-requests, pending-requests, pending-receiver,
}
use zzrpc.Derive.Fields.Resolve.{distinct, column-distinct, pairs, pairs-mem, pairs-distinct}
use zzrpc.Derive.Fields.Code.{TypedMethod, method_types, table, short_name, code_of, consumer-Typed}

module _ (syn : Syntax) where
  state-distinct :
      (ps : List (TypedMethod syn))
      → distinct (map (λ f. f.0) (code_of syn ps).state) ≡ distinct (map (short_name syn) ps)
  state-distinct ps =
      ap
        (λ b.
          not b
          && distinct (
              map (λ f. f.0)
                (pairs (short_name syn) "__requests" "__receiver" (table syn)
                  (λ p. FieldType.receiver p.1) requests-receiver receiver-requests ps)))
        (pairs-mem (short_name syn) "__requests" "__receiver" (table syn)
          (λ p. FieldType.receiver p.1) requests-receiver receiver-requests "pending" ps
          pending-requests pending-receiver)
      ∙ pairs-distinct (short_name syn) "__requests" "__receiver" (table syn)
          (λ p. FieldType.receiver p.1) requests-receiver receiver-requests ps

  -- For a trait that `modify_trait` takes, the generated `ConsumerState` declares a field twice, and
  -- the generated `Senders` does, exactly when two methods have the same name in snake case.
  pub fields-distinct :
      (item : ItemTrait syn.Ty) (gs : List (Signature syn.Ty)) (code : ConsumerCode syn.Ty)
      → modify_trait syn item ≡ some gs
      → consumer syn item.items ≡ some code
      → (distinct (map (λ f. f.0) code.state)
          ≡ distinct (map (λ m. syn.to_snake m.ident) (methods item.items)))
        × (distinct (map (λ f. f.0) code.senders)
            ≡ distinct (map (λ m. syn.to_snake m.ident) (methods item.items)))
  fields-distinct item gs code e c =
      let (ps, ms, r, q) = method_types syn (methods item.items) gs (each-api syn item gs e) in
      let same =
        some-injective (code_of syn ps) code (sym (consumer-Typed syn item.items ps ms r) ∙ c) in
      let names =
        sym (map-map (λ m. syn.to_snake m.ident) (λ p. p.0) ps)
        ∙ ap (map (λ m. syn.to_snake m.ident)) ms in
      (
        ap (λ k. distinct (map (λ f. f.0) k.state)) (sym same)
            ∙ state-distinct ps
            ∙ ap distinct names,
        ap (λ k. distinct (map (λ f. f.0) k.senders)) (sym same)
            ∙ column-distinct (short_name syn) "__sender"
                (λ p. FieldType.arc (FieldType.sender p.1)) ps
            ∙ ap distinct names,
      )
