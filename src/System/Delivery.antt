-- ===== src/System/Delivery.antt =====
-- The consumer's rounds keep to the log: values and items reach the senders of their calls.
use zzrpc.Prelude.{
  ℕ, ◌≡◌, ◌⊎◌, inl, inr, ◌==◌, ==_iff, Bool-cases, Option, none, some, Option-cases, List,
  get_elem?, get_elem?-set_self,
}
use zzrpc.Prelude.Table.{
  Table, lookup, insert, remove, Distinct, lookup-insert, lookup-remove_ne, lookup-remove_self,
}
use zzrpc.Rpc.{TransportError}
use zzrpc.Message.{Response, StreamResponse, ResultSender}
use zzrpc.Consumer.State.{
  Effect, Entry, Slot, values, streams, State, Change, put_change, respond_value, respond_stream,
  open_entry, drop_entry,
}
use zzrpc.Consumer.Handle.{respond, method, respond_slot}
use zzrpc.Consumer.Loop.{Taken, take_request}
use zzrpc.Consumer.Take.{
  continue_, request_slot, abort_value, abort_stream, replaced_sender, replaced_entry,
}
use zzrpc.Consumer.Routing.{get_elem?-set_ne}
use zzrpc.Consumer.Tables.{IsDistinct, DistinctIn}
use zzrpc.System.Log.{Log}
use zzrpc.System.Genuine.{
  All, All-append, ResponseFits, ValueFits, EntryFits, SlotFits, StateFits, EffectFits,
}

-- Removing a key leaves another as it was.
lookup-remove :
    {A : Type 0} (id j : ℕ) (t : Table A)
    → Distinct t
    → (lookup j (remove id t) ≡ none) ⊎ (lookup j (remove id t) ≡ lookup j t)
lookup-remove id j t d = elim (Bool-cases (id == j)) [
  | inl e ↦ inl (rw ((==_iff id j).0 e) (lookup-remove_self j t d))
  | inr e ↦ inr (lookup-remove_ne id j t e)
]

module _ {R T : Type 0} (method_of : R → ℕ) (l : Log R T) (E : Type 0) where
  remove-SlotFits :
      (id : ℕ) (t : Table ℕ)
      → Distinct t
      → SlotFits method_of l (values t)
      → SlotFits method_of l (values (remove id t))
  remove-SlotFits id t d f j = elim (lookup-remove id j t d) [
    | inl e ↦ rw e (tt, tt)
    | inr e ↦ rw e (f j)
  ]

  remove_entry-SlotFits :
      (id : ℕ) (t : Table Entry)
      → Distinct t
      → SlotFits method_of l (streams t)
      → SlotFits method_of l (streams (remove id t))
  remove_entry-SlotFits id t d f j = elim (lookup-remove id j t d) [
    | inl e ↦ rw e (tt, tt)
    | inr e ↦ rw e (f j)
  ]

  insert-SlotFits :
      (id sender : ℕ) (t : Table ℕ)
      → ValueFits method_of l id (some sender)
      → SlotFits method_of l (values t)
      → SlotFits method_of l (values (insert id sender t))
  insert-SlotFits id sender t v f j = elim (Bool-cases (id == j)) [
    | inl e ↦ rw (lookup-insert id j sender t, e) (rw ((==_iff id j).0 e) at v, tt)
    | inr e ↦ rw (lookup-insert id j sender t, e) (f j)
  ]

  insert_entry-SlotFits :
      (id : ℕ) (entry : Entry) (t : Table Entry)
      → EntryFits method_of l id (some entry)
      → SlotFits method_of l (streams t)
      → SlotFits method_of l (streams (insert id entry t))
  insert_entry-SlotFits id entry t v f j = elim (Bool-cases (id == j)) [
    | inl e ↦ rw (lookup-insert id j entry t, e) (tt, rw ((==_iff id j).0 e) at v)
    | inr e ↦ rw (lookup-insert id j entry t, e) (f j)
  ]

  -- A change after which the table and the effects keep to the log.
  abbrev Fine : Change R T E → Type 0
  Fine change = SlotFits method_of l change.slot × All (EffectFits method_of l) change.effects

  drop_entry-Fits : (entry : Entry) → All (EffectFits method_of l {E = E}) (drop_entry entry)
  unfolding drop_entry
  drop_entry-Fits entry = elim (Option-cases entry.result) [
    | inl e ↦ rw e (tt, tt)
    | inr (x, e) ↦ rw e (tt, (tt, tt))
  ]

  open_entry-Fine :
      (p id : ℕ) (t : Table Entry) (entry : Entry)
      → lookup id t ≡ some entry
      → SlotFits method_of l (streams t)
      → Fine (open_entry p t id entry)
  unfolding open_entry
  open_entry-Fine p id t entry h f = elim (Option-cases entry.result) [
    | inl e ↦ simp (e, open_entry) (f, tt)
    | inr (x, e) ↦
        simp (e, open_entry)
          (
            insert_entry-SlotFits id (record entry { result = none }) t (rw h at (f id).1) f,
            (tt, tt),
          )
  ]

  respond_slot-Fine :
      (p : ℕ) (slot : Slot) (id : ℕ) (r : Response T)
      → DistinctIn (some slot)
      → SlotFits method_of l slot
      → ResponseFits method_of l id r
      → Fine (respond_slot p slot id r)
  unfolding respond_slot
  respond_slot-Fine p (values t) id (Response.value k x) d f g = elim (Option-cases (lookup id t)) [
    | inl e ↦ rw (e, respond_value) (f, tt)
    | inr (sender, e) ↦
        rw (e, respond_value) (remove-SlotFits id t d f, ((id, k, g, rw e at (f id).0), tt))
  ]
  respond_slot-Fine p (values t) id (Response.stream k x) d f g = (f, tt)
  respond_slot-Fine p (streams t) id (Response.value k x) d f g = (f, tt)
  respond_slot-Fine p (streams t) id (Response.stream k StreamResponse.open_) d f g =
      elim (Option-cases (lookup id t)) [
        | inl e ↦ rw (e, respond_stream) (f, tt)
        | inr (entry, e) ↦ rw (e, respond_stream) (open_entry-Fine p id t entry e f)
      ]
  respond_slot-Fine p (streams t) id (Response.stream k (StreamResponse.item x)) d f g =
      elim (Option-cases (lookup id t)) [
        | inl e ↦ rw (e, respond_stream) (f, tt)
        | inr (entry, e) ↦
            let (sender, h) = rw e at (f id).1 in
            rw (e, respond_stream) (f, ((id, k, sender, g, h), tt))
      ]
  respond_slot-Fine p (streams t) id (Response.stream k StreamResponse.closed) d f g =
      elim (Option-cases (lookup id t)) [
        | inl e ↦ rw (e, respond_stream) (f, tt)
        | inr (entry, e) ↦
            rw (e, respond_stream) (remove_entry-SlotFits id t d f, drop_entry-Fits entry)
      ]

  -- The sender of a request that was taken.
  abbrev pub SenderFits : ℕ → ResultSender → Type 0
  SenderFits id ResultSender.abort = Unit {0}
  SenderFits id sender = lookup id l.senders ≡ some sender

  replaced_sender-Fits : (o : Option ℕ) → All (EffectFits method_of l {E = E}) (replaced_sender o)
  unfolding replaced_sender
  replaced_sender-Fits none = tt
  replaced_sender-Fits (some sender) = (tt, tt)

  replaced_entry-Fits : (o : Option Entry) → All (EffectFits method_of l {E = E}) (replaced_entry o)
  unfolding replaced_entry
  replaced_entry-Fits none = tt
  replaced_entry-Fits (some entry) = drop_entry-Fits entry

  request_slot-Fine :
      (p : ℕ) (slot : Slot) (id : ℕ) (r : ResultSender) (failure : Option (TransportError E))
      → DistinctIn (some slot)
      → SlotFits method_of l slot
      → SenderFits id r
      → Fine (request_slot p slot id r failure).0
  unfolding request_slot
  request_slot-Fine p (values t) id (ResultSender.value s) none d f v =
      (insert-SlotFits id s t v f, replaced_sender-Fits (lookup id t))
  request_slot-Fine p (values t) id (ResultSender.value s) (some e) d f v = (f, (tt, tt))
  request_slot-Fine p (values t) id ResultSender.abort failure d f v =
      elim (Option-cases (lookup id t)) [
        | inl e ↦ rw (e, abort_value) (f, tt)
        | inr (sender, e) ↦ rw (e, abort_value) (remove-SlotFits id t d f, (tt, tt))
      ]
  request_slot-Fine p (values t) id (ResultSender.stream s items) failure d f v =
      (f, (tt, (tt, tt)))
  request_slot-Fine p (streams t) id (ResultSender.stream s items) none d f v = (
    insert_entry-SlotFits id (record { result = some s; items = items }) t (s, v) f,
    replaced_entry-Fits (lookup id t),
  )
  request_slot-Fine p (streams t) id (ResultSender.stream s items) (some e) d f v =
      (f, (tt, (tt, tt)))
  request_slot-Fine p (streams t) id ResultSender.abort failure d f v =
      elim (Option-cases (lookup id t)) [
        | inl e ↦ rw (e, abort_stream) (f, tt)
        | inr (entry, e) ↦
            rw (e, abort_stream) (remove_entry-SlotFits id t d f, drop_entry-Fits entry)
      ]
  request_slot-Fine p (streams t) id (ResultSender.value s) failure d f v = (f, (tt, tt))

  put_change-StateFits :
      (s : State) (k : ℕ) (slot : Slot) (change : Change R T E)
      → get_elem? s.slots k ≡ some slot
      → SlotFits method_of l change.slot
      → StateFits method_of l s
      → StateFits method_of l (put_change s k change).0
  unfolding put_change
  put_change-StateFits s k slot change e f g i = elim (Bool-cases (k == i)) [
    | inl eq ↦ rw (← (==_iff k i).0 eq, get_elem?-set_self s.slots k slot change.slot e) f
    | inr ne ↦ rw (get_elem?-set_ne s.slots k i change.slot ne) (g i)
  ]

  pub respond-Fits :
      (s : State) (id : ℕ) (r : Response T)
      → IsDistinct s
      → StateFits method_of l s
      → ResponseFits method_of l id r
      → let after = respond {E = E} s id r in
        StateFits method_of l after.0 × All (EffectFits method_of l) after.1
  unfolding respond put_change
  respond-Fits s id r d f g = elim (Option-cases (get_elem? s.slots (method r))) [
    | inl e ↦ rw (e, respond) (f, tt)
    | inr (slot, e) ↦
        let fine =
          respond_slot-Fine s.pending slot id r (rw e at (d (method r))) (rw e at (f (method r)))
            g in
        rw (e, respond)
          (
            put_change-StateFits s (method r) slot (respond_slot s.pending slot id r) e fine.0 f,
            fine.1,
          )
  ]

  pub take_request-Fits :
      {S : Type 0} (cb : S) (effects : List (Effect R T E)) (s : State) (k : ℕ) (taken : Taken R E)
      → IsDistinct s
      → StateFits method_of l s
      → SenderFits taken.message.id taken.result_sender
      → All (EffectFits method_of l) effects
      → (take_request cb effects s k taken).flow ≡ continue_
      → let round = take_request cb effects s k taken in
        StateFits method_of l round.state × All (EffectFits method_of l) round.effects
  unfolding take_request put_change
  take_request-Fits cb effects s k taken d f v past goes =
      elim (Option-cases (get_elem? s.slots k)) [
        | inl e ↦ let h = rw (e, take_request) at goes in cc
        | inr (slot, e) ↦
            let change =
              request_slot s.pending slot taken.message.id taken.result_sender taken.failure in
            let fine =
              request_slot-Fine s.pending slot taken.message.id taken.result_sender taken.failure
                (rw e at (d k)) (rw e at (f k)) v in
            rw (e, take_request)
              (
                put_change-StateFits s k slot change.0 e fine.0 f,
                All-append (EffectFits method_of l) effects change.0.effects past fine.1,
              )
      ]
