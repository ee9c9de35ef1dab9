-- ===== src/Consumer/Tables.antt =====
-- No table of the consumer has an id twice.
use zzrpc.Prelude.{
  ℕ, ◌≡◌, inl, inr, Option, none, some, Option-cases, Bool, true, false, Bool-cases, List, [], ◌∷◌,
  get_elem?, get_elem?-set_self, ◌==◌, ==_iff,
}
use zzrpc.Prelude.Table.{Table, lookup, Distinct, insert-Distinct, remove-Distinct}
use zzrpc.Rpc.{TransportError}
use zzrpc.Message.{Response, StreamResponse, ResultSender}
use zzrpc.Consumer.State.{
  Effect, Entry, Slot, values, streams, State, Change, put_change, new, respond_value,
  respond_stream, open_entry,
}
use zzrpc.Consumer.Handle.{respond, method, respond_slot}
use zzrpc.Consumer.Take.{request_slot, abort_value, abort_stream}
use zzrpc.Consumer.Loop.{Taken, take_request}
use zzrpc.Consumer.Routing.{get_elem?-set_ne}
use zzrpc.Consumer.Changes.{respond-ind, take_request-ind}

abbrev pub DistinctIn : Option Slot → Type 0
DistinctIn none = Unit {0}
DistinctIn (some (values t)) = Distinct t
DistinctIn (some (streams t)) = Distinct t

-- No table has an id twice.
abbrev pub IsDistinct : State → Type 0
IsDistinct s = (k : ℕ) → DistinctIn (get_elem? s.slots k)

pub new-IsDistinct : (kinds : List Bool) → IsDistinct (new kinds)
unfolding new Distinct
new-IsDistinct [] k = tt
new-IsDistinct (false ∷ kinds) ℕ.zero = tt
new-IsDistinct (true ∷ kinds) ℕ.zero = tt
new-IsDistinct (b ∷ kinds) (ℕ.suc k) = new-IsDistinct kinds k

module _ (R T E : Type 0) where
  put_change-IsDistinct :
      (s : State) (k : ℕ) (slot : Slot) (c : Change R T E)
      → get_elem? s.slots k ≡ some slot
      → DistinctIn (some c.slot)
      → IsDistinct s
      → IsDistinct (put_change s k c).0
  unfolding put_change
  put_change-IsDistinct s k slot c e d u i = elim (Bool-cases (k == i)) [
    | inl eq ↦ rw (← (==_iff k i).0 eq, get_elem?-set_self s.slots k slot c.slot e) d
    | inr ne ↦ rw (get_elem?-set_ne s.slots k i c.slot ne) (u i)
  ]

  open_entry-DistinctIn :
      (p : ℕ) (t : Table Entry) (id : ℕ) (entry : Entry)
      → Distinct t
      → DistinctIn (some (open_entry {R = R} {T = T} {E = E} p t id entry).slot)
  unfolding open_entry
  open_entry-DistinctIn p t id entry d = elim (Option-cases entry.result) [
    | inl e ↦ simp (e, open_entry) d
    | inr (x, e) ↦ simp (e, open_entry) (insert-Distinct id (record entry { result = none }) t d)
  ]

  respond_slot-DistinctIn :
      (p : ℕ) (slot : Slot) (id : ℕ) (r : Response T)
      → DistinctIn (some slot)
      → DistinctIn (some (respond_slot {R = R} {T = T} {E = E} p slot id r).slot)
  unfolding respond_slot
  respond_slot-DistinctIn p (values t) id (Response.value k x) d =
      elim (Option-cases (lookup id t)) [
        | inl e ↦ rw (e, respond_value) d
        | inr (x, e) ↦ rw (e, respond_value) (remove-Distinct id t d)
      ]
  respond_slot-DistinctIn p (values t) id (Response.stream k x) d = d
  respond_slot-DistinctIn p (streams t) id (Response.value k x) d = d
  respond_slot-DistinctIn p (streams t) id (Response.stream k StreamResponse.open_) d =
      elim (Option-cases (lookup id t)) [
        | inl e ↦ rw (e, respond_stream) d
        | inr (x, e) ↦ rw (e, respond_stream) (open_entry-DistinctIn p t id x d)
      ]
  respond_slot-DistinctIn p (streams t) id (Response.stream k (StreamResponse.item x)) d =
      elim (Option-cases (lookup id t)) [
        | inl e ↦ rw (e, respond_stream) d
        | inr (x, e) ↦ rw (e, respond_stream) d
      ]
  respond_slot-DistinctIn p (streams t) id (Response.stream k StreamResponse.closed) d =
      elim (Option-cases (lookup id t)) [
        | inl e ↦ rw (e, respond_stream) d
        | inr (x, e) ↦ rw (e, respond_stream) (remove-Distinct id t d)
      ]

  request_slot-DistinctIn :
      (p : ℕ) (slot : Slot) (id : ℕ) (r : ResultSender) (failure : Option (TransportError E))
      → DistinctIn (some slot)
      → DistinctIn (some (request_slot {R = R} {T = T} {E = E} p slot id r failure).0.slot)
  unfolding request_slot
  request_slot-DistinctIn p (values t) id (ResultSender.value s) none d = insert-Distinct id s t d
  request_slot-DistinctIn p (values t) id (ResultSender.value s) (some e) d = d
  request_slot-DistinctIn p (values t) id ResultSender.abort f d =
      elim (Option-cases (lookup id t)) [
        | inl e ↦ rw (e, abort_value) d
        | inr (x, e) ↦ rw (e, abort_value) (remove-Distinct id t d)
      ]
  request_slot-DistinctIn p (values t) id (ResultSender.stream s x) f d = d
  request_slot-DistinctIn p (streams t) id (ResultSender.stream s x) none d =
      insert-Distinct id (record { result = some s; items = x }) t d
  request_slot-DistinctIn p (streams t) id (ResultSender.stream s x) (some e) d = d
  request_slot-DistinctIn p (streams t) id ResultSender.abort f d =
      elim (Option-cases (lookup id t)) [
        | inl e ↦ rw (e, abort_stream) d
        | inr (x, e) ↦ rw (e, abort_stream) (remove-Distinct id t d)
      ]
  request_slot-DistinctIn p (streams t) id (ResultSender.value s) f d = d

  pub respond-IsDistinct :
      (s : State) (id : ℕ) (r : Response T)
      → IsDistinct s
      → IsDistinct (respond {R = R} {T = T} {E = E} s id r).0
  respond-IsDistinct s id r d = respond-ind R T E IsDistinct s id r d (λ slot e.
      put_change-IsDistinct s (method r) slot (respond_slot s.pending slot id r) e
        (respond_slot-DistinctIn s.pending slot id r (rw e at (d (method r)))) d)

  module _ (S : Type 0) where
    pub take_request-IsDistinct :
        (cb : S) (effects : List (Effect R T E)) (s : State) (k : ℕ) (taken : Taken R E)
        → IsDistinct s
        → IsDistinct (take_request cb effects s k taken).state
    take_request-IsDistinct cb effects s k taken d =
        take_request-ind R T E S IsDistinct cb effects s k taken d (λ slot e.
          put_change-IsDistinct s k slot
            (request_slot s.pending slot taken.message.id taken.result_sender taken.failure).0 e
            (request_slot-DistinctIn s.pending slot taken.message.id taken.result_sender
              taken.failure (rw e at (d k)))
            d)
