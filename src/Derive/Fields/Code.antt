-- ===== src/Derive/Fields/Code.antt =====
-- zzrpc-derive/src/lib.rs: what is generated for a consumer, from the methods of the trait and the
-- types that `extract_return_type` finds in them.
use Prim.Native.String.{String, ◌++◌ as ◌<>◌}
use zzrpc.Prelude.{
  ◌≡◌, refl, sym, ap, inl, inr, Option, some, Option-cases, List, [], ◌∷◌, map, if◌then◌else◌,
}
use zzrpc.Derive.{
  Syntax, Method, TraitItem, Signature, methods, each, extract_return_type, is_stream, future,
  modify_method, api_method, impl_api,
}
use zzrpc.Derive.Laws.{modify_method-cases, signature_of, taken, call_of, api_method-some}
use zzrpc.Derive.Fields.{
  FieldType, Init, ConsumerCode, concat, ident_sender, ident_receiver, ident_requests, sender_field,
  consumer_senders, channel, sender_init, state_inits, handler, drainer, impl_consumer_state,
  state_fields, consumer_state, impl_consume, select_arm, new_future, consumer,
}
use zzrpc.Derive.Fields.Resolve.{cons}

module _ (syn : Syntax) where
  -- A method and the type in its return type.
  abbrev pub TypedMethod : Type 0
  TypedMethod = Method syn.Ty × syn.Ty

  abbrev pub Typed : List TypedMethod → Type 0
  Typed [] = Unit {0}
  Typed (p ∷ ps) =
      (extract_return_type syn p.0.output ≡ some p.1)
      × (future syn p.0.output ≡ some (taken syn p.0 p.1))
      × Typed ps

  pub method_types :
      (ms : List (Method syn.Ty)) (gs : List (Signature syn.Ty))
      → each (modify_method syn) ms ≡ some gs
      → (ps : List TypedMethod) × (map (λ p. p.0) ps ≡ ms)
        × Typed ps
        × (map (λ p. taken syn p.0 p.1) ps ≡ map (λ g. g.output) gs)
  unfolding signature_of
  method_types [] gs e = let h : gs ≡ [] = cc in rw h ([], refl, tt, refl)
  method_types (m ∷ ms) gs e = elim (Option-cases (modify_method syn m)) [
    | inl n ↦ let h = rw n at e in cc
    | inr (g, f) ↦ elim (Option-cases (each (modify_method syn) ms)) [
      | inl n ↦ let h = rw (f, n) at e in cc
      | inr (gs', k) ↦
          let h = rw (f, k) at e in
          let split : gs ≡ g ∷ gs' = cc in
          let (t, x, y, d) = modify_method-cases syn m g f in
          let (ps, q, r, s) = method_types ms gs' k in
          rw split (((m, t) ∷ ps), cons refl q, (x, y, r), cons (ap (λ g'. g'.output) d) s)
    ]
  ]

  pub each-Typed :
      {B : Type 0} (f : Method syn.Ty → Option B) (g : TypedMethod → B)
      → ((p : TypedMethod)
          → extract_return_type syn p.0.output ≡ some p.1
          → future syn p.0.output ≡ some (taken syn p.0 p.1)
          → f p.0 ≡ some (g p))
      → (ps : List TypedMethod) → Typed ps
      → each f (map (λ p. p.0) ps) ≡ some (map g ps)
  each-Typed f g h [] r = refl
  each-Typed f g h (p ∷ ps) (x, y, r) = rw (h p x y, each-Typed f g h ps r) refl

  abbrev pub table : TypedMethod → FieldType syn.Ty
  table p =
      if is_stream syn p.0.output then FieldType.stream_table p.1 else FieldType.value_table p.1

  abbrev pub short_name : TypedMethod → String
  short_name p = syn.to_snake p.0.ident

  abbrev pub code_of : List TypedMethod → ConsumerCode syn.Ty
  code_of ps = record {
    senders = map (λ p. (short_name p <> "__sender", FieldType.arc (FieldType.sender p.1))) ps;
    state =
        ("pending", FieldType.usize)
        ∷ concat (
            map
              (λ p.
                (short_name p <> "__requests", table p)
                ∷ (short_name p <> "__receiver", FieldType.receiver p.1)
                ∷ [])
              ps);
    impl_state = record {
      channels =
          map
            (λ p. record {
              tx = short_name p <> "__sender";
              rx = short_name p <> "__receiver";
              result = p.1;
            })
            ps;
      senders = map (sender_init syn) (map (λ p. p.0) ps);
      items = ("pending", Init.zero) ∷ concat (map (state_inits syn) (map (λ p. p.0) ps));
      handlers = map (handler syn) (map (λ p. p.0) ps);
      drainers = map (drainer syn) (map (λ p. p.0) ps);
    };
    arms = map (select_arm syn) (map (λ p. p.0) ps);
    calls = map (λ p. call_of syn p.0 (signature_of syn p.0 (taken syn p.0 p.1))) ps;
    futures = map (new_future syn) (map (λ p. p.0) ps);
  }

  -- The code that is generated, when each method has its type.
  pub consumer-Typed :
      (items : List (TraitItem syn.Ty)) (ps : List TypedMethod)
      → map (λ p. p.0) ps ≡ methods items
      → Typed ps
      → consumer syn items ≡ some (code_of ps)
  unfolding consumer consumer_senders consumer_state impl_consumer_state impl_consume impl_api
      sender_field channel state_fields
  consumer-Typed items ps e r =
      let senders =
        each-Typed (sender_field syn)
          (λ p. (ident_sender syn p.0, FieldType.arc (FieldType.sender p.1))) (λ p x y. rw x refl)
          ps r in
      let fields =
        each-Typed (state_fields syn)
          (λ p.
            (ident_requests syn p.0, table p)
            ∷ (ident_receiver syn p.0, FieldType.receiver p.1)
            ∷ [])
          (λ p x y. rw x refl) ps r in
      let channels =
        each-Typed (channel syn)
          (λ p. record { tx = ident_sender syn p.0; rx = ident_receiver syn p.0; result = p.1 })
          (λ p x y. rw x refl) ps r in
      let calls =
        each-Typed (api_method syn)
          (λ p. call_of syn p.0 (signature_of syn p.0 (taken syn p.0 p.1)))
          (λ p x y. api_method-some syn p.0 (taken syn p.0 p.1) y) ps r in
      rw (sym e, senders, fields, channels, calls) refl
