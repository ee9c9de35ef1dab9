-- ===== src/Derive/Serving/Arguments.antt =====
-- zzrpc-derive/src/lib.rs, `impl_api` and `impl_produce`: the arguments of a call reach the method
-- of the producer.
use Prim.Native.String.{String}
use mathlib.Core.List.{Memᴰ}
use text.Mathlib.Text.{◌==◌}
use zzrpc.Prelude.{
  ◌≡◌, refl, sym, ap, subst, ◌∙◌, inl, inr, true, false, Bool-cases, Option, Option-cases, some,
  List, [], ◌∷◌, map, length, arith,
}
use zzrpc.Derive.{
  ◌>>=◌, Syntax, Method, TraitItem, Call, methods, each, pattern_arguments, is_stream, api_method,
  call_future,
}
use zzrpc.Derive.Laws.{call_of, signature_of}
use zzrpc.Derive.Fields.Names.{same}
use zzrpc.Derive.Fields.Resolve.{mem, distinct, field, distinct-cons, distinct-head, pass}
use zzrpc.Derive.Serving.{
  Request, named, given, bind, find_arm, serve, serve_arm, impl_produce, request_of_call,
}

module _ {V : Type 0} where
  -- A variable that none of the names means.
  each-pass :
      {B : Type 0} (k : String → Option V → Option B) (x : String) (v : V)
      (scope : List (String × V)) (names : List String)
      → mem x names ≡ false
      → each (λ y. k y (field y ((x, v) ∷ scope))) names ≡ each (λ y. k y (field y scope)) names
  each-pass k x v scope [] e = refl
  each-pass k x v scope (y ∷ names) e = elim (Bool-cases (x == y)) [
    | inl h ↦ let h' = rw h at e in cc
    | inr h ↦ let h' = rw h at e in rw (pass y x v scope h, each-pass k x v scope names h') refl
  ]

  -- Each name means its own value.
  named-bind :
      (names : List String) (values : List V)
      → length values ≡ length names
      → distinct names ≡ true
      → named (bind names values) names ≡ some (bind names values)
  named-bind [] values n d = refl
  named-bind (x ∷ names) [] n d = absurd (omega arith)
  named-bind (x ∷ names) (v ∷ values) n d =
      let (unlike, rest) = distinct-cons x names d in
      let later =
        each-pass {B = String × V} (λ y o. do w ← o; some (y, w)) x v (bind names values) names
          unlike in
      rw (same x, later, named-bind names values (omega arith) rest) refl

  given-bind :
      (names : List String) (values : List V)
      → length values ≡ length names
      → distinct names ≡ true
      → given (bind names values) names ≡ some values
  given-bind [] [] n d = refl
  given-bind [] (v ∷ values) n d = absurd (omega arith)
  given-bind (x ∷ names) [] n d = absurd (omega arith)
  given-bind (x ∷ names) (v ∷ values) n d =
      let (unlike, rest) = distinct-cons x names d in
      let later = each-pass (λ y o. o) x v (bind names values) names unlike in
      rw (same x, later, given-bind names values (omega arith) rest) refl

module _ (syn : Syntax) where
  unlike_member :
      (nm : Method syn.Ty → String) (x : String) (m : Method syn.Ty) (ms : List (Method syn.Ty))
      → Memᴰ m ms
      → mem x (map nm ms) ≡ false
      → (x == nm m) ≡ false
  unlike_member nm x m [] i e = elim i [ ]
  unlike_member nm x m (n ∷ ms) (Memᴰ.head p) e = elim (Bool-cases (x == nm n)) [
    | inl h ↦ let h' = rw h at e in cc
    | inr h ↦ ap (λ k. x == nm k) p ∙ h
  ]
  unlike_member nm x m (n ∷ ms) (Memᴰ.tail i) e = elim (Bool-cases (x == nm n)) [
    | inl h ↦ let h' = rw h at e in cc
    | inr h ↦ let h' = rw h at e in unlike_member nm x m ms i h'
  ]

  -- The arm with the variant of a method is its own arm.
  find_arm-own :
      (m : Method syn.Ty) (ms : List (Method syn.Ty))
      → Memᴰ m ms
      → distinct (map (λ n. syn.to_pascal n.ident) ms) ≡ true
      → find_arm (syn.to_pascal m.ident) (map (serve_arm syn) ms) ≡ some (serve_arm syn m)
  unfolding serve_arm
  find_arm-own m [] i d = elim i [ ]
  find_arm-own m (n ∷ ms) (Memᴰ.head e) d =
      subst
        (λ k.
          find_arm (syn.to_pascal k.ident) (map (serve_arm syn) (n ∷ ms)) ≡ some (serve_arm syn k))
        (sym e) (rw (same (syn.to_pascal n.ident)) refl)
  find_arm-own m (n ∷ ms) (Memᴰ.tail i) d =
      let (unlike, rest) = distinct-head (λ k. syn.to_pascal k.ident) n ms d in
      rw (unlike_member (λ k. syn.to_pascal k.ident) (syn.to_pascal n.ident) m ms i unlike)
        (find_arm-own m ms i rest)

  -- A call of a method of the consumer calls the method with the same name of the producer, with
  -- the same arguments in the same order, and its responses have the variant of that method, which
  -- is a stream exactly when the method returns one; if no two methods have the same name in pascal
  -- case, and no two of the arguments of the method the same name.
  pub call-served :
      {V : Type 0} (items : List (TraitItem syn.Ty)) (m : Method syn.Ty) (c : Call syn.Ty)
      (values : List V)
      → Memᴰ m (methods items)
      → distinct (map (λ n. syn.to_pascal n.ident) (methods items)) ≡ true
      → distinct (pattern_arguments m.inputs) ≡ true
      → length values ≡ length (pattern_arguments m.inputs)
      → api_method syn m ≡ some c
      → (r : Request V) × (request_of_call syn c values ≡ some r)
        × (serve (impl_produce syn items) r
            ≡ some (m.ident, values, syn.to_pascal m.ident, is_stream syn m.output))
  unfolding impl_produce api_method serve_arm call_of signature_of
  call-served {V} items m c values i d u n e = elim (Option-cases (call_future syn m.output)) [
    | inl none_ ↦ let h = rw none_ at e in cc
    | inr (f, k) ↦
        let h = rw k at e in
        let same_call : call_of syn m (signature_of syn m f) ≡ c = cc in
        let bound = named-bind (pattern_arguments m.inputs) values n u in
        let passed = given-bind (pattern_arguments m.inputs) values n u in
        let r : Request V = (syn.to_pascal m.ident, bind (pattern_arguments m.inputs) values) in
        (
          r,
          subst (λ c'. request_of_call syn c' values ≡ some r) same_call (rw bound refl),
          rw (find_arm-own m (methods items) i d, bound, passed) refl,
        )
  ]
