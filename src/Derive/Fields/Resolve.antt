-- ===== src/Derive/Fields/Resolve.antt =====
-- The meaning of a name among the fields of a struct, or among the local variables in scope, when
-- each method adds fields that are named after it.
use Prim.Native.String.{String, ◌++◌ as ◌<>◌}
use text.Mathlib.Text.{◌==◌}
use zzrpc.Prelude.{
  ◌≡◌, refl, ap, ◌∙◌, inl, inr, Bool, true, false, not, ◌&&◌, ◌||◌, Bool-cases, Option, none, some,
  List, [], ◌∷◌, map, if◌then◌else◌,
}
use zzrpc.Derive.Fields.{concat}
use zzrpc.Derive.Fields.Names.{same, same_suffix}

abbrev pub mem : String → List String → Bool
mem x [] = false
mem x (y ∷ ys) = x == y || mem x ys

-- No two of the names are the same.
abbrev pub distinct : List String → Bool
distinct [] = true
distinct (x ∷ xs) = not (mem x xs) && distinct xs

-- The field with a name.
abbrev pub field : {T : Type 0} → String → List (String × T) → Option T
field x [] = none
field x ((y, t) ∷ fields) = if y == x then some t else field x fields

pub cons : {A : Type 0} {x y : A} {xs ys : List A} → x ≡ y → xs ≡ ys → x ∷ xs ≡ y ∷ ys
cons p q = rw (p, q) refl

-- A field with another name in front is not seen.
pub pass :
    {T : Type 0} (x y : String) (t : T) (fields : List (String × T))
    → (y == x) ≡ false
    → field x ((y, t) ∷ fields) ≡ field x fields
pass x y t fields e = rw e refl

pub here :
    {T : Type 0} (x : String) (t : T) (fields : List (String × T))
    → field x ((x, t) ∷ fields) ≡ some t
here x t fields = rw (same x) refl

pub distinct-cons :
    (x : String) (xs : List String)
    → distinct (x ∷ xs) ≡ true
    → (mem x xs ≡ false) × (distinct xs ≡ true)
distinct-cons x xs e = elim (Bool-cases (mem x xs)) [
  | inl h ↦ let h' = rw h at e in cc
  | inr h ↦ (h, rw h at e)
]

twice : (b c : Bool) → (not b && (not b && c)) ≡ (not b && c)
twice true c = refl
twice false c = refl

-- Each `a` of a list adds the field with the name `nm a <> s`.
module _ {A : Type 0} (nm : A → String) where
  -- The parts of a list for which the name of no element is `x`.
  pub unseen :
      {B : Type 0} (x : String) (k k' : A → B)
      → ((a : A) → (x == nm a) ≡ false → k a ≡ k' a)
      → (l : List A) → mem x (map nm l) ≡ false
      → map k l ≡ map k' l
  unseen x k k' f [] e = refl
  unseen x k k' f (a ∷ l) e = elim (Bool-cases (x == nm a)) [
    | inl h ↦ let h' = rw h at e in cc
    | inr h ↦ let h' = rw h at e in cons (f a h) (unseen x k k' f l h')
  ]

  pub distinct-head :
      (a : A) (l : List A)
      → distinct (map nm (a ∷ l)) ≡ true
      → (mem (nm a) (map nm l) ≡ false) × (distinct (map nm l) ≡ true)
  distinct-head a l = distinct-cons (nm a) (map nm l)

  module _ {T : Type 0} (s : String) (first : A → T) where
    abbrev pub column : List A → List (String × T)
    column l = map (λ a. (nm a <> s, first a)) l

    pub column-field :
        {B : Type 0} (k : A → Option T → B) (l : List A)
        → distinct (map nm l) ≡ true
        → map (λ a. k a (field (nm a <> s) (column l))) l ≡ map (λ a. k a (some (first a))) l
    column-field k [] e = refl
    column-field k (a ∷ l) e =
        let (unlike, rest) = distinct-head a l e in
        cons (ap (k a) (here (nm a <> s) (first a) (column l))) (
          unseen (nm a) (λ b. k b (field (nm b <> s) (column (a ∷ l))))
            (λ b. k b (field (nm b <> s) (column l)))
            (λ b h.
              ap (k b) (
                pass (nm b <> s) (nm a <> s) (first a) (column l)
                  (same_suffix (nm a) (nm b) s ∙ h)))
            l unlike
          ∙ column-field k l rest)

    pub column-mem :
        (x : String) (l : List A) → mem (x <> s) (map (λ f. f.0) (column l)) ≡ mem x (map nm l)
    column-mem x [] = refl
    column-mem x (a ∷ l) = rw (same_suffix x (nm a) s, column-mem x l) refl

    pub column-distinct : (l : List A) → distinct (map (λ f. f.0) (column l)) ≡ distinct (map nm l)
    column-distinct [] = refl
    column-distinct (a ∷ l) = rw (column-mem (nm a) l, column-distinct l) refl

  -- Each `a` adds the fields `nm a <> s` and `nm a <> s'`.
  module _ {T : Type 0} (s s' : String) (first second : A → T)
      (apart : (x y : String) → ((x <> s) == (y <> s')) ≡ false)
      (apart' : (x y : String) → ((x <> s') == (y <> s)) ≡ false) where
    abbrev pub pair : A → List (String × T)
    pair a = (nm a <> s, first a) ∷ (nm a <> s', second a) ∷ []

    abbrev pub pairs : List A → List (String × T)
    pairs l = concat (map pair l)

    pass_first :
        (a b : A) (l : List A)
        → (nm a == nm b) ≡ false
        → field (nm b <> s) (pairs (a ∷ l)) ≡ field (nm b <> s) (pairs l)
    pass_first a b l h =
        pass (nm b <> s) (nm a <> s) (first a) ((nm a <> s', second a) ∷ pairs l)
          (same_suffix (nm a) (nm b) s ∙ h)
        ∙ pass (nm b <> s) (nm a <> s') (second a) (pairs l) (apart' (nm a) (nm b))

    pass_second :
        (a b : A) (l : List A)
        → (nm a == nm b) ≡ false
        → field (nm b <> s') (pairs (a ∷ l)) ≡ field (nm b <> s') (pairs l)
    pass_second a b l h =
        pass (nm b <> s') (nm a <> s) (first a) ((nm a <> s', second a) ∷ pairs l)
          (apart (nm a) (nm b))
        ∙ pass (nm b <> s') (nm a <> s') (second a) (pairs l) (same_suffix (nm a) (nm b) s' ∙ h)

    pub first-field :
        {B : Type 0} (k : A → Option T → B) (l : List A)
        → distinct (map nm l) ≡ true
        → map (λ a. k a (field (nm a <> s) (pairs l))) l ≡ map (λ a. k a (some (first a))) l
    first-field k [] e = refl
    first-field k (a ∷ l) e =
        let (unlike, rest) = distinct-head a l e in
        cons (ap (k a) (here (nm a <> s) (first a) ((nm a <> s', second a) ∷ pairs l))) (
          unseen (nm a) (λ b. k b (field (nm b <> s) (pairs (a ∷ l))))
            (λ b. k b (field (nm b <> s) (pairs l))) (λ b h. ap (k b) (pass_first a b l h)) l unlike
          ∙ first-field k l rest)

    pub second-field :
        {B : Type 0} (k : A → Option T → B) (l : List A)
        → distinct (map nm l) ≡ true
        → map (λ a. k a (field (nm a <> s') (pairs l))) l ≡ map (λ a. k a (some (second a))) l
    second-field k [] e = refl
    second-field k (a ∷ l) e =
        let (unlike, rest) = distinct-head a l e in
        cons
          (ap (k a) (
            pass (nm a <> s') (nm a <> s) (first a) ((nm a <> s', second a) ∷ pairs l)
              (apart (nm a) (nm a))
            ∙ here (nm a <> s') (second a) (pairs l)))
          (unseen (nm a) (λ b. k b (field (nm b <> s') (pairs (a ∷ l))))
              (λ b. k b (field (nm b <> s') (pairs l))) (λ b h. ap (k b) (pass_second a b l h)) l
              unlike
            ∙ second-field k l rest)

    first-mem :
        (x : String) (l : List A) → mem (x <> s) (map (λ f. f.0) (pairs l)) ≡ mem x (map nm l)
    first-mem x [] = refl
    first-mem x (a ∷ l) = rw (same_suffix x (nm a) s, apart x (nm a), first-mem x l) refl

    second-mem :
        (x : String) (l : List A) → mem (x <> s') (map (λ f. f.0) (pairs l)) ≡ mem x (map nm l)
    second-mem x [] = refl
    second-mem x (a ∷ l) = rw (same_suffix x (nm a) s', apart' x (nm a), second-mem x l) refl

    pub pairs-distinct : (l : List A) → distinct (map (λ f. f.0) (pairs l)) ≡ distinct (map nm l)
    pairs-distinct [] = refl
    pairs-distinct (a ∷ l) =
        rw (apart (nm a) (nm a), first-mem (nm a) l, second-mem (nm a) l, pairs-distinct l)
          (twice (mem (nm a) (map nm l)) (distinct (map nm l)))

    pub pairs-mem :
        (x : String) (l : List A)
        → ((y : String) → (x == (y <> s)) ≡ false)
        → ((y : String) → (x == (y <> s')) ≡ false)
        → mem x (map (λ f. f.0) (pairs l)) ≡ false
    pairs-mem x [] p q = refl
    pairs-mem x (a ∷ l) p q = rw (p (nm a), q (nm a), pairs-mem x l p q) refl
