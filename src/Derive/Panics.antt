-- ===== src/Derive/Panics.antt =====
-- zzrpc-derive/src/lib.rs, `modify_trait` and `extract_stream_item_type`: when the macro panics.
use text.Mathlib.Text.{◌==◌}
use text.Mathlib.TextEquality.{eq_iff}
use zzrpc.Prelude.{
  ◌≡◌, ◌⊎◌, ◌↔◌, refl, ap, ◌∙◌, inl, inr, true, false, Bool-cases, none, some, Option-cases,
  is_some, List, [], ◌∷◌,
}
use zzrpc.Derive.{
  GenericArgument, PathArguments, TypeParamBound, Syntax, ReturnType, Method, ItemTrait, methods,
  each, item_type, extract_stream_item_type, extract_return_type, modify_method, modify_trait,
}
use zzrpc.Derive.Laws.{future-cases}

-- The bounds of `impl Stream<Item = ty>`.
abbrev pub stream_of : {Ty : Type 0} → Ty → List (TypeParamBound Ty)
stream_of ty =
    TypeParamBound.trait_ (
      record {
        ident = "Stream";
        arguments = PathArguments.angle_bracketed (GenericArgument.assoc_type "Item" ty ∷ []);
      }
      ∷ [])
    ∷ []

module _ {Ty : Type 0} where
  item_type-some :
      (arguments : PathArguments Ty) (ty : Ty)
      → item_type arguments ≡ some ty
      → arguments ≡ PathArguments.angle_bracketed (GenericArgument.assoc_type "Item" ty ∷ [])
  unfolding item_type
  item_type-some PathArguments.other ty e = cc
  item_type-some (PathArguments.angle_bracketed []) ty e = cc
  item_type-some (PathArguments.angle_bracketed (GenericArgument.other ∷ [])) ty e = cc
  item_type-some (PathArguments.angle_bracketed (GenericArgument.assoc_type x t ∷ [])) ty e =
      elim (Bool-cases (x == "Item")) [
        | inl h ↦ let e' = rw h at e in let same = (eq_iff x "Item").0 h in cc
        | inr h ↦ let e' = rw h at e in cc
      ]
  item_type-some (PathArguments.angle_bracketed (GenericArgument.other ∷ b ∷ l)) ty e = cc
  item_type-some (PathArguments.angle_bracketed (GenericArgument.assoc_type x t ∷ b ∷ l)) ty e = cc

  -- Nothing but `impl Stream<Item = ty>` has an item type.
  stream-some :
      (bounds : List (TypeParamBound Ty)) (ty : Ty)
      → extract_stream_item_type bounds ≡ some ty
      → bounds ≡ stream_of ty
  unfolding extract_stream_item_type
  stream-some [] ty e = cc
  stream-some (TypeParamBound.other ∷ l) ty e = cc
  stream-some (TypeParamBound.trait_ [] ∷ l) ty e = cc
  stream-some (TypeParamBound.trait_ (segment ∷ []) ∷ []) ty e =
      elim (Bool-cases (segment.ident == "Stream")) [
        | inl h ↦
            let e' = rw h at e in
            let same = (eq_iff segment.ident "Stream").0 h in
            let rest = item_type-some segment.arguments ty e' in
            ap
              (λ x.
                TypeParamBound.trait_ (record { ident = x; arguments = segment.arguments } ∷ [])
                ∷ [])
              same
            ∙ ap (λ a. TypeParamBound.trait_ (record { ident = "Stream"; arguments = a } ∷ []) ∷ [])
                rest
        | inr h ↦ let e' = rw h at e in cc
      ]
  stream-some (TypeParamBound.trait_ (segment ∷ []) ∷ b ∷ l) ty e = cc
  stream-some (TypeParamBound.trait_ (segment ∷ t ∷ k) ∷ l) ty e = cc

  stream_of-some : (ty : Ty) → extract_stream_item_type (stream_of ty) ≡ some ty
  unfolding extract_stream_item_type item_type
  stream_of-some ty = refl

module _ (syn : Syntax) where
  -- A return type that is no `impl` type, or is `impl Stream<Item = ..>`.
  abbrev pub IsAllowed : ReturnType syn.Ty → Type 0
  IsAllowed ReturnType.default = Unit {0}
  IsAllowed (ReturnType.type_ ty) =
      (syn.impl_trait ty ≡ none) ⊎ ((t : syn.Ty) × (syn.impl_trait ty ≡ some (stream_of t)))

  abbrev pub IsAccepted : Method syn.Ty → Type 0
  IsAccepted m = (m.is_async ≡ true) × (m.has_generics ≡ false) × IsAllowed m.output

  abbrev pub AllAccepted : List (Method syn.Ty) → Type 0
  AllAccepted [] = Unit {0}
  AllAccepted (m ∷ ms) = IsAccepted m × AllAccepted ms

  extract-IsAllowed :
      (output : ReturnType syn.Ty) (t : syn.Ty)
      → extract_return_type syn output ≡ some t
      → IsAllowed output
  unfolding extract_return_type
  extract-IsAllowed ReturnType.default t e = tt
  extract-IsAllowed (ReturnType.type_ ty) t e = elim (Option-cases (syn.impl_trait ty)) [
    | inl n ↦ inl n
    | inr (bounds, b) ↦
        let e' = rw (extract_return_type, b) at e in
        inr (t, rw b (ap some (stream-some bounds t e')))
  ]

  IsAllowed-extract :
      (output : ReturnType syn.Ty)
      → IsAllowed output
      → (t : syn.Ty) × (extract_return_type syn output ≡ some t)
  unfolding extract_return_type
  IsAllowed-extract ReturnType.default a = (syn.unit, refl)
  IsAllowed-extract (ReturnType.type_ ty) (inl n) = (ty, rw (extract_return_type, n) refl)
  IsAllowed-extract (ReturnType.type_ ty) (inr (t, b)) =
      (t, rw (extract_return_type, b) (stream_of-some t))

  modify_method-IsAccepted :
      (m : Method syn.Ty) → (is_some (modify_method syn m) ≡ true) ↔ IsAccepted m
  unfolding modify_method
  modify_method-IsAccepted m = (forth, back)
    where
      forth : is_some (modify_method syn m) ≡ true → IsAccepted m
      forth h = elim (Bool-cases m.is_async) [
        | inr a ↦ let h' = rw (modify_method, a) at h in cc
        | inl a ↦ elim (Bool-cases m.has_generics) [
          | inl g ↦ let h' = rw (modify_method, a, g) at h in cc
          | inr g ↦ elim (future-cases syn m.output) [
            | inl (f, t) ↦ let h' = rw (modify_method, a, g, f) at h in cc
            | inr (t, x, f) ↦ (a, g, extract-IsAllowed m.output t x)
          ]
        ]
      ]

      back : IsAccepted m → is_some (modify_method syn m) ≡ true
      back (a, g, allowed) =
          let (t, x) = IsAllowed-extract m.output allowed in
          elim (future-cases syn m.output) [ inl (f, n) ↦ cc | inr (t', y, f) ↦ rw (a, g, f) refl ]

  each-AllAccepted :
      (ms : List (Method syn.Ty)) → (is_some (each (modify_method syn) ms) ≡ true) ↔ AllAccepted ms
  each-AllAccepted [] = (λ e. tt, λ a. refl)
  each-AllAccepted (m ∷ ms) =
      let (first, first') = modify_method-IsAccepted m in
      let (rest, rest') = each-AllAccepted ms in
      elim (Option-cases (modify_method syn m)) [
        | inl n ↦ (λ e. let e' = rw n at e in cc, λ a. let e' = rw n at (first' a.0) in cc)
        | inr (g, n) ↦ elim (Option-cases (each (modify_method syn) ms)) [
          | inl k ↦ (λ e. let e' = rw (n, k) at e in cc, λ a. let e' = rw k at (rest' a.1) in cc)
          | inr (gs, k) ↦ (λ e. (first (rw n refl), rest (rw k refl)), λ a. rw (n, k) refl)
        ]
      ]

  -- `modify_trait` takes a trait, that is it does not panic, exactly when the trait is not generic,
  -- and each method of it is async, is not generic, and has a return type that is no `impl` type or
  -- is `impl Stream<Item = ..>`, with one bound of one segment with one argument.
  pub modify_trait-accepted :
      (item : ItemTrait syn.Ty)
      → (is_some (modify_trait syn item) ≡ true)
        ↔ ((item.has_generics ≡ false) × AllAccepted (methods item.items))
  unfolding modify_trait
  modify_trait-accepted item =
      let (forth, back) = each-AllAccepted (methods item.items) in
      elim (Bool-cases item.has_generics) [
        | inl g ↦ (λ e. let e' = rw (modify_trait, g) at e in cc, λ a. cc)
        | inr g ↦ (λ e. (g, forth (rw (modify_trait, g) at e)), λ a. rw g (back a.1))
      ]
