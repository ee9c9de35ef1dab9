-- ===== src/Consumer/Waiting.antt =====
-- Whether the consumer waits for a stream to open, before and after a response or a request. For
-- this no table has an id twice.
use zzrpc.Prelude.{
  ℕ, ◌≤◌, ◌≡◌, refl, inl, inr, Option, none, some, Option-cases, false, Bool-cases, List, arith,
  get_elem?, ◌==◌, ==_iff, weight,
}
use zzrpc.Prelude.Table.{Table, lookup, remove, Distinct, lookup-insert, lookup-remove_self}
use zzrpc.Rpc.{TransportError}
use zzrpc.Message.{Response, StreamResponse, ResultSender, Payload}
use zzrpc.Consumer.State.{
  Effect, Entry, Slot, values, streams, State, Change, respond_value, respond_stream, open_entry,
}
use zzrpc.Consumer.Handle.{respond, method, respond_slot}
use zzrpc.Consumer.Take.{request_slot, abort_value, abort_stream}
use zzrpc.Consumer.Loop.{Taken, take_request}
use zzrpc.Consumer.Pending.{unopened}
use zzrpc.Consumer.Routing.{value_in, stream_in, stream_at, Same, Same-at, other-at}
use zzrpc.Consumer.Unused.{Unused, request_slot-Same, put_change-Unused}
use zzrpc.Consumer.Changes.{respond-ind, put_change-at, take_request-ind}
use zzrpc.Consumer.Tables.{DistinctIn, IsDistinct}

abbrev waiting_in : Option Slot → ℕ → ℕ
waiting_in slot j = weight unopened (stream_in slot j)

module _ (R T E : Type 0) where
  open_entry-waiting :
      (p : ℕ) (t : Table Entry) (j : ℕ) (entry : Entry)
      → lookup j t ≡ some entry
      → waiting_in (some (open_entry {R = R} {T = T} {E = E} p t j entry).slot) j ≡ 0
  unfolding open_entry
  open_entry-waiting p t j entry h = elim (Option-cases entry.result) [
    | inl e ↦ simp (e, open_entry) (rw h (simp e))
    | inr (x, e) ↦
        simp (e, open_entry) (ground (arith, lookup-insert j j (record entry { result = none }) t))
  ]

  respond_slot-opened :
      (p : ℕ) (slot : Slot) (j k : ℕ)
      → waiting_in
          (some
            (respond_slot {R = R} {T = T} {E = E} p slot j
              (Response.stream k StreamResponse.open_)).slot)
          j
        ≡ 0
  unfolding respond_slot
  respond_slot-opened p (values t) j k = refl
  respond_slot-opened p (streams t) j k = elim (Option-cases (lookup j t)) [
    | inl e ↦ rw (e, respond_stream) (rw e refl)
    | inr (x, e) ↦ rw (e, respond_stream) (open_entry-waiting p t j x e)
  ]

  removed-waiting :
      (t : Table Entry) (j : ℕ)
      → Distinct t
      → waiting_in (some (streams (remove j t))) j ≤ waiting_in (some (streams t)) j
  removed-waiting t j d = rw (lookup-remove_self j t d) (omega arith)

  respond_slot-waiting-le :
      (p : ℕ) (slot : Slot) (j : ℕ) (r : Response T)
      → DistinctIn (some slot)
      → waiting_in (some (respond_slot {R = R} {T = T} {E = E} p slot j r).slot) j
        ≤ waiting_in (some slot) j
  unfolding respond_slot
  respond_slot-waiting-le p (values t) j (Response.value k x) d = elim (Option-cases (lookup j t)) [
    | inl e ↦ rw (e, respond_value) (omega arith)
    | inr (y, e) ↦ rw (e, respond_value) (omega arith)
  ]
  respond_slot-waiting-le p (values t) j (Response.stream k x) d = omega arith
  respond_slot-waiting-le p (streams t) j (Response.value k x) d = omega arith
  respond_slot-waiting-le p (streams t) j (Response.stream k StreamResponse.open_) d =
      omega (arith, respond_slot-opened p (streams t) j k)
  respond_slot-waiting-le p (streams t) j (Response.stream k (StreamResponse.item x)) d =
      elim (Option-cases (lookup j t)) [
        | inl e ↦ rw (e, respond_stream) (rw e (omega arith))
        | inr (y, e) ↦ rw (e, respond_stream) (rw e (omega arith))
      ]
  respond_slot-waiting-le p (streams t) j (Response.stream k StreamResponse.closed) d =
      elim (Option-cases (lookup j t)) [
        | inl e ↦ rw (e, respond_stream) (rw e (omega arith))
        | inr (y, e) ↦ rw (e, respond_stream) (rw (lookup-remove_self j t d) (omega arith))
      ]

  pub respond-waiting-le :
      (s : State) (j k : ℕ) (r : Response T)
      → IsDistinct s
      → weight unopened (stream_at (respond {R = R} {T = T} {E = E} s j r).0 k j)
        ≤ weight unopened (stream_at s k j)
  respond-waiting-le s j k r d =
      respond-ind R T E
        (λ s'. weight unopened (stream_at s' k j) ≤ weight unopened (stream_at s k j)) s j r
        (omega arith)
        (λ slot e. elim (Bool-cases (method r == k)) [
          | inl eq ↦
              let here : method r ≡ k = (==_iff (method r) k).0 eq in
              rw (← here) (
                rw (put_change-at R T E s (method r) slot (respond_slot s.pending slot j r) j e, e)
                  (respond_slot-waiting-le s.pending slot j r (rw e at (d (method r)))))
          | inr ne ↦
              rw (other-at R T E s (method r) k (respond_slot s.pending slot j r) j ne).1
                (omega arith)
        ])

  pub respond-opened :
      (s : State) (j k : ℕ)
      → let r : Response T = Response.stream k StreamResponse.open_ in
        weight unopened (stream_at (respond {R = R} {T = T} {E = E} s j r).0 k j) ≡ 0
  unfolding respond
  respond-opened s j k = elim (Option-cases (get_elem? s.slots k)) [
    | inl e ↦ rw (e, respond) (rw e refl)
    | inr (slot, e) ↦
        let r : Response T = Response.stream k StreamResponse.open_ in
        rw (e, respond)
          (rw (put_change-at R T E s k slot (respond_slot s.pending slot j r) j e)
            (respond_slot-opened s.pending slot j k))
  ]

  abort-Same :
      (p : ℕ) (slot : Slot) (j : ℕ) (f : Option (TransportError E))
      → value_in (some slot) j ≡ none
      → stream_in (some slot) j ≡ none
      → Same R T E slot (request_slot {R = R} {T = T} p slot j ResultSender.abort f).0.slot j
  unfolding request_slot
  abort-Same p (values t) j f v w = rw (v, abort_value) (v, refl)
  abort-Same p (streams t) j f v w = rw (w, abort_stream) (refl, w)

  abort-waiting-le :
      (p : ℕ) (slot : Slot) (j : ℕ) (f : Option (TransportError E))
      → DistinctIn (some slot)
      → waiting_in (some (request_slot {R = R} {T = T} p slot j ResultSender.abort f).0.slot) j
        ≤ waiting_in (some slot) j
  unfolding request_slot
  abort-waiting-le p (values t) j f d = elim (Option-cases (lookup j t)) [
    | inl e ↦ rw (e, abort_value) (omega arith)
    | inr (y, e) ↦ rw (e, abort_value) (omega arith)
  ]
  abort-waiting-le p (streams t) j f d = elim (Option-cases (lookup j t)) [
    | inl e ↦ rw (e, abort_stream) (rw e (omega arith))
    | inr (y, e) ↦ rw (e, abort_stream) (rw (lookup-remove_self j t d) (omega arith))
  ]

  module _ (S : Type 0) where
    -- Another request than `j` was taken.
    pub take_request-other :
        (cb : S) (effects : List (Effect R T E)) (s : State) (i : ℕ) (taken : Taken R E) (j k : ℕ)
        → (taken.message.id == j) ≡ false
        → stream_at (take_request cb effects s i taken).state k j ≡ stream_at s k j
    take_request-other cb effects s i taken j k ne =
        take_request-ind R T E S (λ s'. stream_at s' k j ≡ stream_at s k j) cb effects s i taken
          refl
          (λ slot e.
            let c : Change R T E =
              (request_slot s.pending slot taken.message.id taken.result_sender taken.failure).0 in
            let same =
              request_slot-Same j R T E s.pending slot taken.message.id taken.result_sender
                taken.failure ne in
            elim (Bool-cases (i == k)) [
              | inl eq ↦ rw (← (==_iff i k).0 eq) (Same-at R T E s i slot c j e same).1
              | inr other ↦ (other-at R T E s i k c j other).1
            ])

    abbrev aborting : ℕ → Payload R → Option (TransportError E) → Taken R E
    aborting j p f = record {
      message = record { id = j; payload = p };
      result_sender = ResultSender.abort;
      failure = f;
    }

    -- An abort of `j`.
    pub abort-waiting :
        (cb : S) (effects : List (Effect R T E)) (s : State) (i j k : ℕ) (p : Payload R)
        (f : Option (TransportError E))
        → IsDistinct s
        → weight unopened (stream_at (take_request cb effects s i (aborting j p f)).state k j)
          ≤ weight unopened (stream_at s k j)
    abort-waiting cb effects s i j k p f d =
        take_request-ind R T E S
          (λ s'. weight unopened (stream_at s' k j) ≤ weight unopened (stream_at s k j)) cb effects
          s i (aborting j p f) (omega arith)
          (λ slot e.
            let c : Change R T E =
              (request_slot {R = R} {T = T} s.pending slot j ResultSender.abort f).0 in
            elim (Bool-cases (i == k)) [
              | inl eq ↦ rw (← (==_iff i k).0 eq) (
                  rw (put_change-at R T E s i slot c j e, e)
                    (abort-waiting-le s.pending slot j f (rw e at (d i))))
              | inr ne ↦ rw (other-at R T E s i k c j ne).1 (omega arith)
            ])

    pub abort-Unused :
        (cb : S) (effects : List (Effect R T E)) (s : State) (i j : ℕ) (p : Payload R)
        (f : Option (TransportError E))
        → Unused j s
        → Unused j (take_request cb effects s i (aborting j p f)).state
    abort-Unused cb effects s i j p f u =
        take_request-ind R T E S (Unused j) cb effects s i (aborting j p f) u (λ slot e.
          put_change-Unused j R T E s i slot
            (request_slot {R = R} {T = T} s.pending slot j ResultSender.abort f).0 e
            (abort-Same s.pending slot j f (rw e at (u i).0) (rw e at (u i).1)) u)
