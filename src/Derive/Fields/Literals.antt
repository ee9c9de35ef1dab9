-- ===== src/Derive/Fields/Literals.antt =====
-- zzrpc-derive/src/lib.rs, `ConsumerState::new` as generated: its struct literals fit the structs.
use Prim.Native.String.{◌++◌ as ◌<>◌}
use mathlib.Core.List.{map-map, map-append}
use zzrpc.Prelude.{
  ◌≡◌, refl, sym, ap, ◌∙◌, inl, inr, true, Bool-cases, none, some, List, [], ◌∷◌, ◌++◌, map,
}
use zzrpc.Derive.{Syntax, Method, is_stream}
use zzrpc.Derive.Fields.{FieldType, Fields, concat, sender_init, state_inits}
use zzrpc.Derive.Fields.Names.{sender-receiver, receiver-sender}
use zzrpc.Derive.Fields.Resolve.{distinct, cons, first-field, second-field}
use zzrpc.Derive.Fields.Code.{TypedMethod, table, short_name, code_of}
use zzrpc.Derive.Fields.Typing.{locals, needed, given, declared}

pub map_cong :
    {A B : Type 0} (f g : A → B) → ((a : A) → f a ≡ g a) → (l : List A) → map f l ≡ map g l
map_cong f g h [] = refl
map_cong f g h (a ∷ l) = cons (h a) (map_cong f g h l)

map-concat :
    {A B C : Type 0} (f : A → List B) (g : B → C) (l : List A)
    → map g (concat (map f l)) ≡ concat (map (λ a. map g (f a)) l)
map-concat f g [] = refl
map-concat f g (a ∷ l) =
    map-append g (f a) (concat (map f l)) ∙ ap (λ x. map g (f a) ++ x) (map-concat f g l)

module _ (syn : Syntax) where
  pub through :
      {A B : Type 0} (k : A → B) (piece : Method syn.Ty → A) (ps : List (TypedMethod syn))
      → map k (map piece (map (λ p. p.0) ps)) ≡ map (λ p. k (piece p.0)) ps
  through k piece ps =
      map-map k piece (map (λ p. p.0) ps) ∙ map-map (λ m. k (piece m)) (λ p. p.0) ps

  -- The local variables of `ConsumerState::new`.
  abbrev pub scope : List (TypedMethod syn) → Fields syn.Ty
  scope ps = concat (
      map
        (λ p.
          (short_name syn p <> "__sender", FieldType.sender p.1)
          ∷ (short_name syn p <> "__receiver", FieldType.receiver p.1)
          ∷ [])
        ps)

  pub locals-scope :
      (ps : List (TypedMethod syn)) → locals (code_of syn ps).impl_state.channels ≡ scope ps
  locals-scope ps = ap concat (map-map _ _ ps)

  pub senders_given :
      (ps : List (TypedMethod syn))
      → distinct (map (short_name syn) ps) ≡ true
      → map (given (scope ps)) (code_of syn ps).impl_state.senders
        ≡ map declared (code_of syn ps).senders
  unfolding sender_init
  senders_given ps d =
      through (given (scope ps)) (sender_init syn) ps
      ∙ first-field (short_name syn) "__sender" "__receiver" (λ p. FieldType.sender p.1)
          (λ p. FieldType.receiver p.1) sender-receiver receiver-sender
          (λ p o. (
            short_name syn p <> "__sender",
            elim o [ some t ↦ some (FieldType.arc t) | none ↦ none ],
          ))
          ps d
      ∙ sym (
          map-map declared
            (λ p. (short_name syn p <> "__sender", FieldType.arc (FieldType.sender p.1))) ps)

  needed-table : (p : TypedMethod syn) → needed (table syn p) ≡ none
  needed-table p = elim (Bool-cases (is_stream syn p.0.output)) [
    | inl e ↦ rw e refl
    | inr e ↦ rw e refl
  ]

  pub items_given :
      (ps : List (TypedMethod syn))
      → distinct (map (short_name syn) ps) ≡ true
      → map (given (scope ps)) (code_of syn ps).impl_state.items
        ≡ map declared (code_of syn ps).state
  unfolding state_inits
  items_given ps d = cons refl (
      map-concat (state_inits syn) (given (scope ps)) (map (λ p. p.0) ps)
      ∙ ap concat (
          map-map (λ m. map (given (scope ps)) (state_inits syn m)) (λ p. p.0) ps
          ∙ second-field (short_name syn) "__sender" "__receiver" (λ p. FieldType.sender p.1)
              (λ p. FieldType.receiver p.1) sender-receiver receiver-sender
              (λ p o.
                (short_name syn p <> "__requests", none)
                ∷ (short_name syn p <> "__receiver", o)
                ∷ [])
              ps d
          ∙ map_cong _ _
              (λ p.
                ap
                  (λ n.
                    (short_name syn p <> "__requests", n)
                    ∷ (short_name syn p <> "__receiver", some (FieldType.receiver p.1))
                    ∷ [])
                  (sym (needed-table p)))
              ps)
      ∙ sym (map-concat _ declared ps))
