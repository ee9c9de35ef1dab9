-- ===== src/Derive/Laws.antt =====
-- What the macro generates fits together.
use Prim.Native.String.{String}
use zzrpc.Prelude.{
  ◌≡◌, ◌⊎◌, refl, ap, ◌∙◌, inl, inr, Bool, true, false, none, some, Option-cases, Bool-cases, List,
  [], ◌∷◌, map, if◌then◌else◌, arith,
}
use zzrpc.Derive.{
  Syntax, ReturnType, FnArg, Method, ItemTrait, Future, Signature, Variant, Call, methods,
  skip_self, pattern_arguments, extract_stream_item_type, each, extract_return_type, is_stream,
  future, call_future, modify_method, modify_trait, request, variant, response, api_method,
  impl_api, api, Output,
}

arguments_agree :
    {Ty : Type 0} (inputs : List (FnArg Ty))
    → pattern_arguments inputs ≡ map (λ a. a.0) (skip_self inputs)
unfolding skip_self pattern_arguments
arguments_agree [] = refl
arguments_agree (FnArg.typed name ty ∷ inputs) = ground (arith, arguments_agree inputs)
arguments_agree (FnArg.receiver ∷ inputs) = arguments_agree inputs
arguments_agree (FnArg.other ty ∷ inputs) = arguments_agree inputs

cons : {A : Type 0} {x y : A} {xs ys : List A} → x ≡ y → xs ≡ ys → x ∷ xs ≡ y ∷ ys
cons p q = rw (p, q) refl

module _ (syn : Syntax) where
  -- The future that a variant of `Response` answers.
  abbrev pub answered_by : Variant syn.Ty → Future syn.Ty
  answered_by v =
      if v.is_stream then Future.stream_request v.result else Future.value_request v.result

  pub future-cases :
      (output : ReturnType syn.Ty)
      → ((future syn output ≡ none) × (extract_return_type syn output ≡ none))
        ⊎ ((t : syn.Ty) × (extract_return_type syn output ≡ some t)
            × (future syn output
                ≡ some (
                    if is_stream syn output
                    then Future.stream_request t
                    else Future.value_request t)))
  unfolding future extract_return_type is_stream
  future-cases ReturnType.default = inr (syn.unit, refl, refl)
  future-cases (ReturnType.type_ ty) = elim (Option-cases (syn.impl_trait ty)) [
    | inl e ↦ rw (extract_return_type, future, is_stream, e) (inr (ty, refl, refl))
    | inr (bounds, e) ↦
        rw (extract_return_type, future, is_stream, e)
          (elim (Option-cases (extract_stream_item_type bounds)) [
            | inl f ↦ rw f (inl (refl, refl))
            | inr (t, f) ↦ rw f (inr (t, refl, refl))
          ])
  ]

  answered_by-variant :
      (name : String) (b : Bool) (t : syn.Ty)
      → answered_by (record { ident = name; is_stream = b; result = t })
        ≡ (if b then Future.stream_request t else Future.value_request t)
  answered_by-variant name true t = refl
  answered_by-variant name false t = refl

  unfoldable pub signature_of : Method syn.Ty → Future syn.Ty → Signature syn.Ty
  signature_of m f = record { ident = m.ident; inputs = m.inputs; output = f }

  unfoldable pub taken : (m : Method syn.Ty) → syn.Ty → Future syn.Ty
  taken m t = if is_stream syn m.output then Future.stream_request t else Future.value_request t

  -- A method that the trait takes has a return type, and its future is the one for that type.
  pub modify_method-cases :
      (m : Method syn.Ty) (g : Signature syn.Ty)
      → modify_method syn m ≡ some g
      → (t : syn.Ty) × (extract_return_type syn m.output ≡ some t)
        × (future syn m.output ≡ some (taken m t))
        × (signature_of m (taken m t) ≡ g)
  unfolding modify_method taken signature_of
  modify_method-cases m g e = elim (Bool-cases m.is_async) [
    | inr a ↦ let h = rw (modify_method, a) at e in cc
    | inl a ↦ elim (Bool-cases m.has_generics) [
      | inl b ↦ let h = rw (modify_method, a, b) at e in cc
      | inr b ↦ elim (future-cases m.output) [
        | inl (f, t) ↦ let h = rw (modify_method, a, b, f) at e in cc
        | inr (t, x, f) ↦ let h = rw (modify_method, a, b, f) at e in (t, x, f, cc)
      ]
    ]
  ]

  variant_of : Method syn.Ty → syn.Ty → Variant syn.Ty
  variant_of m t = record {
    ident = syn.to_pascal m.ident;
    is_stream = is_stream syn m.output;
    result = t;
  }

  unfoldable pub call_of : Method syn.Ty → Signature syn.Ty → Call syn.Ty
  call_of m g = record {
    signature = g;
    variant = syn.to_pascal m.ident;
    fields = pattern_arguments m.inputs;
  }

  variant-some :
      (m : Method syn.Ty) (t : syn.Ty)
      → extract_return_type syn m.output ≡ some t
      → variant syn m ≡ some (variant_of m t)
  unfolding variant variant_of
  variant-some m t e = rw e

  -- The two matches agree.
  call_future-future : (output : ReturnType syn.Ty) → call_future syn output ≡ future syn output
  unfolding call_future future
  call_future-future ReturnType.default = refl
  call_future-future (ReturnType.type_ ty) = elim (Option-cases (syn.impl_trait ty)) [
    | inl e ↦ rw (call_future, future, e) refl
    | inr (bounds, e) ↦ rw (call_future, future, e) refl
  ]

  pub api_method-some :
      (m : Method syn.Ty) (f : Future syn.Ty)
      → future syn m.output ≡ some f
      → api_method syn m ≡ some (call_of m (signature_of m f))
  unfolding api_method call_of signature_of
  api_method-some m f e = rw (call_future-future m.output, e)

  -- The variant that a call makes with the names that it fills in, and a variant with its names.
  abbrev pub filled : Call syn.Ty → String × List String
  filled c = (c.variant, c.fields)

  abbrev pub names : String × List (String × syn.Ty) → String × List String
  names r = (r.0, map (λ a. a.0) r.1)

  abbrev request_of : Method syn.Ty → String × List (String × syn.Ty)
  request_of m = (syn.to_pascal m.ident, skip_self m.inputs)

  -- The parts of what is generated for the methods `ms`, whose signatures in the trait are `gs`.
  Fits : List (Method syn.Ty) → List (Signature syn.Ty) → Type 0
  Fits ms gs =
      (vs : List (Variant syn.Ty)) × (cs : List (Call syn.Ty)) × (each (variant syn) ms ≡ some vs)
      × (each (api_method syn) ms ≡ some cs)
      × (map (λ c. c.signature) cs ≡ gs)
      × (map answered_by vs ≡ map (λ g. g.output) gs)
      × (map (λ v. v.is_stream) vs ≡ map (λ m. is_stream syn m.output) ms)
      × (map (λ c. c.variant) cs ≡ map (λ v. v.ident) vs)
      × (map filled cs ≡ map names (map request_of ms))

  Fits-more :
      (m : Method syn.Ty) (ms : List (Method syn.Ty)) (g : Signature syn.Ty)
      (gs : List (Signature syn.Ty))
      → modify_method syn m ≡ some g
      → Fits ms gs
      → Fits (m ∷ ms) (g ∷ gs)
  unfolding Fits taken signature_of variant_of call_of
  Fits-more m ms g gs e (vs, cs, v, c, p, q, r, s, u) =
      let (t, x, f, d) = modify_method-cases m g e in
      let here = variant-some m t x in
      let there = api_method-some m (taken m t) f in
      (
        variant_of m t ∷ vs,
        call_of m (signature_of m (taken m t)) ∷ cs,
        rw (here, v) refl,
        rw (there, c) refl,
        cons d p,
        cons
            (answered_by-variant (syn.to_pascal m.ident) (is_stream syn m.output) t
              ∙ ap (λ g'. g'.output) d)
            q,
        cons refl r,
        cons refl s,
        cons (ap (λ l. (syn.to_pascal m.ident, l)) (arguments_agree m.inputs)) u,
      )

  each-Fits :
      (ms : List (Method syn.Ty)) (gs : List (Signature syn.Ty))
      → each (modify_method syn) ms ≡ some gs
      → Fits ms gs
  unfolding Fits
  each-Fits [] gs e =
      let h : gs ≡ [] = cc in rw h ([], [], refl, refl, refl, refl, refl, refl, refl)
  each-Fits (m ∷ ms) gs e = elim (Option-cases (modify_method syn m)) [
    | inl n ↦ let h = rw n at e in cc
    | inr (g, f) ↦ elim (Option-cases (each (modify_method syn) ms)) [
      | inl n ↦ let h = rw (f, n) at e in cc
      | inr (gs', k) ↦
          let h = rw (f, k) at e in
          let split : gs ≡ g ∷ gs' = cc in rw split (Fits-more m ms g gs' f (each-Fits ms gs' k))
    ]
  ]

  pub each-api :
      (item : ItemTrait syn.Ty) (gs : List (Signature syn.Ty))
      → modify_trait syn item ≡ some gs
      → each (modify_method syn) (methods item.items) ≡ some gs
  unfolding modify_trait
  each-api item gs e = elim (Bool-cases item.has_generics) [
    | inl b ↦ let h = rw (modify_trait, b) at e in cc
    | inr b ↦ rw (modify_trait, b) at e
  ]

  -- If `modify_trait` takes a trait, the macro generates everything for it, and the parts fit
  -- together. The methods of the consumer have the signatures of the trait; a variant of `Response`
  -- is a stream, of the same type, exactly when the method returns a `StreamRequest`; and a call
  -- makes the variant of `Request` with the name of the variant of `Response`, and fills in exactly
  -- the fields of that variant.
  pub api-Fits :
      (item : ItemTrait syn.Ty) (gs : List (Signature syn.Ty))
      → modify_trait syn item ≡ some gs
      → (out : Output syn.Ty) × (api syn item ≡ some out)
        × (out.signatures ≡ gs)
        × (map (λ c. c.signature) out.calls ≡ gs)
        × (map answered_by out.responses ≡ map (λ g. g.output) gs)
        × (map (λ v. v.is_stream) out.responses
            ≡ map (λ m. is_stream syn m.output) (methods item.items))
        × (map (λ c. c.variant) out.calls ≡ map (λ v. v.ident) out.responses)
        × (map filled out.calls ≡ map names out.requests)
  unfolding api response impl_api request Fits
  api-Fits item gs e =
      let (vs, cs, v, c, p, q, r, s, u) = each-Fits (methods item.items) gs (each-api item gs e) in
      let out : Output syn.Ty = record {
        signatures = gs;
        requests = request syn item.items;
        responses = vs;
        calls = cs;
      } in
      (out, rw (e, response, v, impl_api, c) refl, refl, p, q, r, s, u)
