-- ===== src/Consumer/Routing.antt =====
-- Which request a message of the producer is for: answers reach the sender of their id and method,
-- and nothing else.
use zzrpc.Prelude.{
  ℕ, ◌≡◌, ◌⊎◌, refl, inl, inr, Option, none, some, Option-cases, false, List, [], ◌∷◌, arith,
  get_elem?, set, set_same, get_elem?-set_self, ◌==◌, ==_iff, Bool-cases,
}
use zzrpc.Prelude.Table.{lookup, lookup-insert, lookup-remove_ne}
use zzrpc.Message.{Response, StreamResponse}
use zzrpc.Consumer.State.{Entry, Slot, values, streams, State, Change, put_change}
use zzrpc.Consumer.Handle.{respond, method, respond_slot}

-- The sender, or the entry, of the request `id` of a method.
abbrev pub value_in : Option Slot → ℕ → Option ℕ
value_in (some (values t)) id = lookup id t
value_in _ id = none

abbrev pub stream_in : Option Slot → ℕ → Option Entry
stream_in (some (streams t)) id = lookup id t
stream_in _ id = none

abbrev pub value_at : State → ℕ → ℕ → Option ℕ
value_at s k id = value_in (get_elem? s.slots k) id

abbrev pub stream_at : State → ℕ → ℕ → Option Entry
stream_at s k id = stream_in (get_elem? s.slots k) id

pub get_elem?-set_ne :
    {A : Type 0} (xs : List A) (i j : ℕ) (x : A)
    → (i == j) ≡ false
    → get_elem? (set xs i x) j ≡ get_elem? xs j
get_elem?-set_ne [] i j x h = refl
get_elem?-set_ne (y ∷ xs) ℕ.zero ℕ.zero x h = ground arith
get_elem?-set_ne (y ∷ xs) ℕ.zero (ℕ.suc j) x h = refl
get_elem?-set_ne (y ∷ xs) (ℕ.suc i) ℕ.zero x h = refl
get_elem?-set_ne (y ∷ xs) (ℕ.suc i) (ℕ.suc j) x h = get_elem?-set_ne xs i j x (ground arith)

module _ (R T E : Type 0) where
  abbrev pub Same : Slot → Slot → ℕ → Type 0
  Same slot slot' j =
      (value_in (some slot') j ≡ value_in (some slot) j)
      × (stream_in (some slot') j ≡ stream_in (some slot) j)

  respond_slot-Same :
      (p : ℕ) (slot : Slot) (id j : ℕ) (r : Response T)
      → (id == j) ≡ false
      → Same slot (respond_slot {R = R} {T = T} {E = E} p slot id r).slot j
  unfolding respond_slot
  respond_slot-Same p (values t) id j (Response.value k x) h =
      ground (arith, lookup-remove_ne id j t h)
  respond_slot-Same p (streams t) id j (Response.stream k StreamResponse.open_) h =
      elim (Option-cases (lookup id t)) [
        | inl e ↦ ground arith
        | inr (entry, e) ↦ ground (arith, lookup-insert id j (record entry { result = none }) t)
      ]
  respond_slot-Same p (streams t) id j (Response.stream k (StreamResponse.item x)) h = ground arith
  respond_slot-Same p (streams t) id j (Response.stream k StreamResponse.closed) h =
      ground (arith, lookup-remove_ne id j t h)
  respond_slot-Same p (values t) id j (Response.stream k x) h = (refl, refl)
  respond_slot-Same p (streams t) id j (Response.value k x) h = (refl, refl)

  pub Same-at :
      (s : State) (k : ℕ) (slot : Slot) (c : Change R T E) (j : ℕ)
      → get_elem? s.slots k ≡ some slot
      → Same slot c.slot j
      → (value_at (put_change s k c).0 k j ≡ value_at s k j)
        × (stream_at (put_change s k c).0 k j ≡ stream_at s k j)
  unfolding put_change
  Same-at s k slot c j e same =
      let at_k = get_elem?-set_self s.slots k slot c.slot e in
      (rw (at_k, e) (same.0), rw (at_k, e) (same.1))

  pub other-at :
      (s : State) (k i : ℕ) (c : Change R T E) (j : ℕ)
      → (k == i) ≡ false
      → (value_at (put_change s k c).0 i j ≡ value_at s i j)
        × (stream_at (put_change s k c).0 i j ≡ stream_at s i j)
  unfolding put_change
  other-at s k i c j h = let e = get_elem?-set_ne s.slots k i c.slot h in (rw e, rw e)

  -- A response leaves every other request as it was: one of another method, and one of the same
  -- method with another id.
  pub respond-frame :
      (s : State) (id : ℕ) (r : Response T) (i j : ℕ)
      → ((method r == i) ≡ false) ⊎ ((id == j) ≡ false)
      → let s' = (respond {R = R} {T = T} {E = E} s id r).0 in
        (value_at s' i j ≡ value_at s i j) × (stream_at s' i j ≡ stream_at s i j)
  unfolding respond
  respond-frame s id r i j h = elim (Option-cases (get_elem? s.slots (method r))) [
    | inl e ↦ rw (e, respond) (refl, refl)
    | inr (slot, e) ↦
        let c = respond_slot {R = R} {T = T} {E = E} s.pending slot id r in
        rw (e, respond) (framed slot c e (λ g. respond_slot-Same s.pending slot id j r g))
  ]
    where
      k : ℕ
      k = method r

      framed :
          (slot : Slot) (c : Change R T E)
          → get_elem? s.slots k ≡ some slot
          → ((id == j) ≡ false → Same slot c.slot j)
          → (value_at (put_change s k c).0 i j ≡ value_at s i j)
            × (stream_at (put_change s k c).0 i j ≡ stream_at s i j)
      framed slot c e same = elim (Bool-cases (k == i)) [
        | inr ne ↦ other-at s k i c j ne
        | inl eq ↦ elim h [
          | inl ne ↦ cc
          | inr ne ↦ rw (← (==_iff k i).0 eq) (Same-at s k slot c j e (same ne))
        ]
      ]

  absent_slot :
      (p : ℕ) (slot : Slot) (id : ℕ) (r : Response T)
      → value_in (some slot) id ≡ none
      → stream_in (some slot) id ≡ none
      → respond_slot {R = R} {T = T} {E = E} p slot id r
        ≡ record { pending = p; slot = slot; effects = [] }
  unfolding respond_slot
  absent_slot p (values t) id (Response.value k x) e f = ground arith
  absent_slot p (streams t) id (Response.stream k StreamResponse.open_) e f = ground arith
  absent_slot p (streams t) id (Response.stream k (StreamResponse.item x)) e f = ground arith
  absent_slot p (streams t) id (Response.stream k StreamResponse.closed) e f = ground arith
  absent_slot p (values t) id (Response.stream k x) e f = refl
  absent_slot p (streams t) id (Response.value k x) e f = refl

  -- A response for an id that its method does not know, because the request was answered or aborted
  -- before, changes nothing and calls nothing.
  pub respond_absent :
      (s : State) (id : ℕ) (r : Response T)
      → value_at s (method r) id ≡ none
      → stream_at s (method r) id ≡ none
      → respond {R = R} {T = T} {E = E} s id r ≡ (s, [])
  unfolding respond
  respond_absent s id r e f = elim (Option-cases (get_elem? s.slots (method r))) [
    | inl g ↦ rw (g, respond)
    | inr (slot, g) ↦
        rw (g, respond)
          (rw (absent_slot s.pending slot id r (rw g at e) (rw g at f)) (unchanged slot g))
  ]
    where
      unchanged :
          (slot : Slot)
          → get_elem? s.slots (method r) ≡ some slot
          → put_change {R = R} {T = T} {E = E} s
              (method r)
              (record { pending = s.pending; slot = slot; effects = [] })
            ≡ (s, [])
      unchanged slot g = rw (put_change, set_same s.slots (method r) slot g)
