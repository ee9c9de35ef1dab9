-- ===== src/Consumer/Kinds.antt =====
-- The tables of the consumer's loop stay of the kind of their methods.
use zzrpc.Prelude.{
  ℕ, ◌≡◌, refl, Bool, true, false, ◌==◌, ==_iff, Bool-cases, Option, none, some, Option-cases, inl,
  inr, List, [], ◌∷◌, get_elem?, get_elem?-set_self,
}
use zzrpc.Prelude.Table.{Table, lookup}
use zzrpc.Rpc.{TransportError}
use zzrpc.Message.{Response, StreamResponse, ResultSender}
use zzrpc.Consumer.State.{
  Effect, Entry, Slot, values, streams, State, Change, put_change, new, open_entry, respond_value,
  respond_stream,
}
use zzrpc.Consumer.Handle.{respond, method, respond_slot}
use zzrpc.Consumer.Take.{request_slot, abort_value, abort_stream}
use zzrpc.Consumer.Loop.{Taken, take_request}
use zzrpc.Consumer.Routing.{get_elem?-set_ne}
use zzrpc.Consumer.Changes.{respond-ind, take_request-ind}

abbrev pub slot_kind : Slot → Bool
slot_kind (values t) = false
slot_kind (streams t) = true

abbrev pub kind_in : Option Slot → Option Bool
kind_in none = none
kind_in (some slot) = some (slot_kind slot)

-- The tables are those of the methods.
abbrev pub HasKinds : List Bool → State → Type 0
HasKinds kinds s = (k : ℕ) → kind_in (get_elem? s.slots k) ≡ get_elem? kinds k

pub new-HasKinds : (kinds : List Bool) → HasKinds kinds (new kinds)
unfolding new
new-HasKinds [] k = refl
new-HasKinds (false ∷ kinds) ℕ.zero = refl
new-HasKinds (true ∷ kinds) ℕ.zero = refl
new-HasKinds (b ∷ kinds) (ℕ.suc k) = new-HasKinds kinds k

module _ (R T E : Type 0) where
  open_entry-kind :
      (p : ℕ) (t : Table Entry) (id : ℕ) (entry : Entry)
      → slot_kind (open_entry {R = R} {T = T} {E = E} p t id entry).slot ≡ true
  unfolding open_entry
  open_entry-kind p t id entry = elim (Option-cases entry.result) [
    | inl e ↦ simp (e, open_entry)
    | inr (x, e) ↦ simp (e, open_entry)
  ]

  respond_slot-kind :
      (p : ℕ) (slot : Slot) (id : ℕ) (r : Response T)
      → slot_kind (respond_slot {R = R} {T = T} {E = E} p slot id r).slot ≡ slot_kind slot
  unfolding respond_slot
  respond_slot-kind p (values t) id (Response.value k x) = elim (Option-cases (lookup id t)) [
    | inl e ↦ rw (e, respond_value) refl
    | inr (x, e) ↦ rw (e, respond_value) refl
  ]
  respond_slot-kind p (values t) id (Response.stream k x) = refl
  respond_slot-kind p (streams t) id (Response.value k x) = refl
  respond_slot-kind p (streams t) id (Response.stream k StreamResponse.open_) =
      elim (Option-cases (lookup id t)) [
        | inl e ↦ rw (e, respond_stream) refl
        | inr (x, e) ↦ rw (e, respond_stream) (open_entry-kind p t id x)
      ]
  respond_slot-kind p (streams t) id (Response.stream k (StreamResponse.item x)) =
      elim (Option-cases (lookup id t)) [
        | inl e ↦ rw (e, respond_stream) refl
        | inr (x, e) ↦ rw (e, respond_stream) refl
      ]
  respond_slot-kind p (streams t) id (Response.stream k StreamResponse.closed) =
      elim (Option-cases (lookup id t)) [
        | inl e ↦ rw (e, respond_stream) refl
        | inr (x, e) ↦ rw (e, respond_stream) refl
      ]

  request_slot-kind :
      (p : ℕ) (slot : Slot) (id : ℕ) (r : ResultSender) (failure : Option (TransportError E))
      → slot_kind (request_slot {R = R} {T = T} p slot id r failure).0.slot ≡ slot_kind slot
  unfolding request_slot
  request_slot-kind p (values t) id (ResultSender.value s) none = refl
  request_slot-kind p (values t) id (ResultSender.value s) (some e) = refl
  request_slot-kind p (values t) id ResultSender.abort f = elim (Option-cases (lookup id t)) [
    | inl e ↦ rw (e, abort_value) refl
    | inr (x, e) ↦ rw (e, abort_value) refl
  ]
  request_slot-kind p (values t) id (ResultSender.stream s x) f = refl
  request_slot-kind p (streams t) id (ResultSender.stream s x) none = refl
  request_slot-kind p (streams t) id (ResultSender.stream s x) (some e) = refl
  request_slot-kind p (streams t) id ResultSender.abort f = elim (Option-cases (lookup id t)) [
    | inl e ↦ rw (e, abort_stream) refl
    | inr (x, e) ↦ rw (e, abort_stream) refl
  ]
  request_slot-kind p (streams t) id (ResultSender.value s) f = refl

  put_change-HasKinds :
      (kinds : List Bool) (s : State) (k : ℕ) (slot : Slot) (c : Change R T E)
      → get_elem? s.slots k ≡ some slot
      → slot_kind c.slot ≡ slot_kind slot
      → HasKinds kinds s
      → HasKinds kinds (put_change s k c).0
  unfolding put_change
  put_change-HasKinds kinds s k slot c e same h i = elim (Bool-cases (k == i)) [
    | inl eq ↦
        let at = h k in
        rw (← (==_iff k i).0 eq, get_elem?-set_self s.slots k slot c.slot e, same) (rw e at at)
    | inr ne ↦ rw (get_elem?-set_ne s.slots k i c.slot ne) (h i)
  ]

  pub respond-HasKinds :
      (kinds : List Bool) (s : State) (id : ℕ) (r : Response T)
      → HasKinds kinds s
      → HasKinds kinds (respond {R = R} {T = T} {E = E} s id r).0
  respond-HasKinds kinds s id r h = respond-ind R T E (HasKinds kinds) s id r h (λ slot e.
      put_change-HasKinds kinds s (method r) slot (respond_slot s.pending slot id r) e
        (respond_slot-kind s.pending slot id r) h)

  pub take_request-HasKinds :
      {S : Type 0} (kinds : List Bool) (cb : S) (effects : List (Effect R T E)) (s : State) (k : ℕ)
      (taken : Taken R E)
      → HasKinds kinds s
      → HasKinds kinds (take_request cb effects s k taken).state
  take_request-HasKinds {S} kinds cb effects s k taken h =
      take_request-ind R T E S (HasKinds kinds) cb effects s k taken h (λ slot e.
        put_change-HasKinds kinds s k slot
          (request_slot s.pending slot taken.message.id taken.result_sender taken.failure).0 e
          (request_slot-kind s.pending slot taken.message.id taken.result_sender taken.failure) h)
