-- ===== src/Derive/Fields/Checked.antt =====
-- zzrpc-derive/src/lib.rs, `consumer`: the code that is generated for a consumer is well typed when
-- the names of the fields of different methods are different.
use Prim.Native.String.{String, ◌++◌ as ◌<>◌}
use mathlib.Core.List.{map-map}
use zzrpc.Prelude.{◌≡◌, refl, sym, ap, ◌∙◌, inl, inr, true, Bool-cases, Option, some, List, map}
use zzrpc.Derive.{Syntax, Method, ItemTrait, Future, Signature, methods, is_stream, modify_trait}
use zzrpc.Derive.Laws.{taken, each-api}
use zzrpc.Derive.Fields.{
  FieldType, ConsumerCode, handler, drainer, select_arm, new_future, consumer,
}
use zzrpc.Derive.Fields.Names.{
  requests-receiver, receiver-requests, pending-requests, pending-receiver,
}
use zzrpc.Derive.Fields.Resolve.{distinct, field, pass, column-field, first-field, second-field}
use zzrpc.Derive.Fields.Code.{TypedMethod, method_types, table, short_name, code_of, consumer-Typed}
use zzrpc.Derive.Fields.Literals.{map_cong, through, locals-scope, senders_given, items_given}
use zzrpc.Derive.Fields.Typing.{held, received, made, given, WellTyped}

module _ (syn : Syntax) where
  abbrev pub outputs : List (Signature syn.Ty) → List (Option (Future syn.Ty))
  outputs gs = map (λ g. some g.output) gs

  -- The tables of the generated state, found by their names.
  tables :
      {B : Type 0} (k : TypedMethod syn → Option (FieldType syn.Ty) → B)
      (ps : List (TypedMethod syn))
      → distinct (map (short_name syn) ps) ≡ true
      → map (λ p. k p (field (short_name syn p <> "__requests") (code_of syn ps).state)) ps
        ≡ map (λ p. k p (some (table syn p))) ps
  tables k ps d =
      map_cong _ _
        (λ p. ap (k p) (pass _ "pending" FieldType.usize _ (pending-requests (short_name syn p))))
        ps
      ∙ first-field (short_name syn) "__requests" "__receiver" (table syn)
          (λ p. FieldType.receiver p.1) requests-receiver receiver-requests k ps d

  receivers :
      {B : Type 0} (k : TypedMethod syn → Option (FieldType syn.Ty) → B)
      (ps : List (TypedMethod syn))
      → distinct (map (short_name syn) ps) ≡ true
      → map (λ p. k p (field (short_name syn p <> "__receiver") (code_of syn ps).state)) ps
        ≡ map (λ p. k p (some (FieldType.receiver p.1))) ps
  receivers k ps d =
      map_cong _ _
        (λ p. ap (k p) (pass _ "pending" FieldType.usize _ (pending-receiver (short_name syn p))))
        ps
      ∙ second-field (short_name syn) "__requests" "__receiver" (table syn)
          (λ p. FieldType.receiver p.1) requests-receiver receiver-requests k ps d

  held-table :
      (p : TypedMethod syn)
      → held (is_stream syn p.0.output) (some (table syn p)) ≡ some (taken syn p.0 p.1)
  unfolding taken
  held-table p = elim (Bool-cases (is_stream syn p.0.output)) [
    | inl e ↦ rw e refl
    | inr e ↦ rw e refl
  ]

  all_taken :
      (ps : List (TypedMethod syn)) (gs : List (Signature syn.Ty))
      → map (λ p. taken syn p.0 p.1) ps ≡ map (λ g. g.output) gs
      → map (λ p. some (taken syn p.0 p.1)) ps ≡ outputs gs
  all_taken ps gs q =
      sym (map-map (λ f. some f) (λ p. taken syn p.0 p.1) ps)
      ∙ ap (map (λ f. some f)) q
      ∙ map-map (λ f. some f) (λ g. g.output) gs

  -- What each piece of code with a name of a table makes of that table.
  of_tables :
      {A : Type 0} (piece : Method syn.Ty → A)
      (k : A → Option (FieldType syn.Ty) → Option (Future syn.Ty)) (name : A → String)
      (ps : List (TypedMethod syn)) (gs : List (Signature syn.Ty))
      → ((p : TypedMethod syn) → name (piece p.0) ≡ short_name syn p <> "__requests")
      → ((p : TypedMethod syn) → k (piece p.0) (some (table syn p)) ≡ some (taken syn p.0 p.1))
      → map (λ p. taken syn p.0 p.1) ps ≡ map (λ g. g.output) gs
      → distinct (map (short_name syn) ps) ≡ true
      → map (λ x. k x (field (name x) (code_of syn ps).state)) (map piece (map (λ p. p.0) ps))
        ≡ outputs gs
  of_tables piece k name ps gs n h q d =
      through syn (λ x. k x (field (name x) (code_of syn ps).state)) piece ps
      ∙ map_cong _ _ (λ p. ap (λ x. k (piece p.0) (field x (code_of syn ps).state)) (n p)) ps
      ∙ tables (λ p. k (piece p.0)) ps d
      ∙ map_cong _ _ h ps
      ∙ all_taken ps gs q

  code-WellTyped :
      (ps : List (TypedMethod syn)) (gs : List (Signature syn.Ty))
      → map (λ p. taken syn p.0 p.1) ps ≡ map (λ g. g.output) gs
      → distinct (map (short_name syn) ps) ≡ true
      → WellTyped (code_of syn ps) (outputs gs)
  unfolding handler drainer select_arm new_future taken
  code-WellTyped ps gs q d = (
    ap (λ l. map (given l) (code_of syn ps).impl_state.senders) (locals-scope syn ps)
        ∙ senders_given syn ps d,
    ap (λ l. map (given l) (code_of syn ps).impl_state.items) (locals-scope syn ps)
        ∙ items_given syn ps d,
    of_tables (handler syn) (λ h. held h.is_stream) (λ h. h.requests) ps gs (λ p. refl) held-table q
        d,
    of_tables (drainer syn) (λ h. held h.is_stream) (λ h. h.requests) ps gs (λ p. refl) held-table q
        d,
    of_tables (select_arm syn) (λ h. held h.is_stream) (λ h. h.requests) ps gs (λ p. refl)
        held-table q d,
    through syn _ (select_arm syn) ps
        ∙ receivers (λ p. received (is_stream syn p.0.output)) ps d
        ∙ all_taken ps gs q,
    through syn _ (new_future syn) ps
        ∙ column-field (short_name syn) "__sender" (λ p. FieldType.arc (FieldType.sender p.1))
            (λ p. made (is_stream syn p.0.output)) ps d
        ∙ all_taken ps gs q,
  )

  -- If `modify_trait` takes a trait and no two of its methods have the same name in snake case, the
  -- macro generates the code of the consumer, and the code is well typed. The literals of `Senders`
  -- and of `ConsumerState` give every declared field, in order, a value of its type. For each
  -- method, the arm of `handle_message`, the loop of `shutdown` and the arm of the `select!` use a
  -- table for the requests that the method returns, that arm reads a receiver for them, and the
  -- method of the consumer makes one from the sender that it names.
  pub consumer-WellTyped :
      (item : ItemTrait syn.Ty) (gs : List (Signature syn.Ty))
      → modify_trait syn item ≡ some gs
      → distinct (map (λ m. syn.to_snake m.ident) (methods item.items)) ≡ true
      → (code : ConsumerCode syn.Ty) × (consumer syn item.items ≡ some code)
        × WellTyped code (outputs gs)
  consumer-WellTyped item gs e d =
      let (ps, ms, r, q) = method_types syn (methods item.items) gs (each-api syn item gs e) in
      let names =
        sym (map-map (λ m. syn.to_snake m.ident) (λ p. p.0) ps)
        ∙ ap (map (λ m. syn.to_snake m.ident)) ms in
      (
        code_of syn ps,
        consumer-Typed syn item.items ps ms r,
        code-WellTyped ps gs q (ap distinct names ∙ d),
      )
