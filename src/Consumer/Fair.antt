-- ===== src/Consumer/Fair.antt =====
-- What a round of the consumer's loop holds, uses up and takes, in senders.
use zzrpc.Prelude.{
  ℕ, ◌+◌, ◌≡◌, refl, inl, inr, Option, none, some, Option-cases, List, [], ◌∷◌, ◌++◌, arith, total,
  total-append, total-set, get_elem?, Bool, true, false, Bool-cases, ◌&&◌, not,
}
use zzrpc.Rpc.{ShutdownType, HandlingStrategy, stop, ignore}
use zzrpc.Message.{Request, Response, Message, ResultSender}
use zzrpc.Consumer.State.{Effect, send_message, Slot, State, Change, put_change}
use zzrpc.Consumer.Handle.{
  respond, method, respond_slot, handle_message, shutdown, idle, drain_slots,
}
use zzrpc.Consumer.Take.{request_slot}
use zzrpc.Consumer.Loop.{
  Received, Taken, Event, received, requested, timed_out, shut_down, consumer_dropped, Round,
  Settings, stop_with, after_message, after_error, receive, take_request, step, drop_result_sender,
  reset_if,
}
use zzrpc.Consumer.Mass.{
  mass, mass_slot, spent, brought, Balanced, respond_slot-Balanced, request_slot-Balanced,
  total-drain_slots, mass-drained,
}

module _ (u v : ℕ → ℕ) {R T E : Type 0} where
  abbrev pub brought_by : Event R T E → ℕ
  brought_by (requested k (some taken)) = brought u v taken.result_sender
  brought_by _ = 0

  abbrev pub spent_all : List (Effect R T E) → ℕ
  spent_all = total (spent u v)

  abbrev pub total_brought : List (Event R T E) → ℕ
  total_brought = total brought_by

  -- The new state and the effects account for the state `s` and what came.
  abbrev Kept : State → ℕ → State × List (Effect R T E) → Type 0
  Kept s came (t, effects) = mass u v t + spent_all effects ≡ mass u v s + came

  -- Likewise of a round.
  abbrev Fair : {S : Type 0} → State → ℕ → Round R T E S → Type 0
  Fair s came r = mass u v r.state + spent_all r.effects ≡ mass u v s + came

module _ (u v : ℕ → ℕ) (R T E : Type 0) where
  put_change-Kept :
      (s : State) (k : ℕ) (c : Change R T E) (slot : Slot) (came : ℕ)
      → get_elem? s.slots k ≡ some slot
      → Balanced u v R T E c slot came
      → Kept u v s came (put_change s k c)
  unfolding put_change
  put_change-Kept s k c slot came e h =
      omega (arith, total-set (mass_slot u v) s.slots k slot c.slot e)

  respond-Kept :
      (s : State) (id : ℕ) (r : Response T) → Kept u v {R = R} {T = T} {E = E} s 0 (respond s id r)
  unfolding respond
  respond-Kept s id r = elim (Option-cases (get_elem? s.slots (method r))) [
    | inl e ↦ rw (e, respond) (omega arith)
    | inr (slot, e) ↦
        rw (e, respond)
          (put_change-Kept s (method r) (respond_slot s.pending slot id r) slot 0 e
            (respond_slot-Balanced u v R T E s.pending slot id r))
  ]

  shutdown-Kept :
      (s : State) (cause : ShutdownType) → Kept u v {R = R} {T = T} {E = E} s 0 (shutdown s cause)
  unfolding shutdown
  shutdown-Kept s cause =
      omega (arith, total-drain_slots u v R T E cause s.slots, mass-drained u v R T E s.slots)

  reset_if-free : (b : Bool) → spent_all u v {R = R} {T = T} {E = E} (reset_if b) ≡ 0
  reset_if-free true = refl
  reset_if-free false = refl

  head-free :
      (b : Bool) (m : Request R)
      → spent_all u v {R = R} {T = T} {E = E} (reset_if b ++ send_message m ∷ []) ≡ 0
  head-free true m = refl
  head-free false m = refl

  module _ (S : Type 0) where
    stop_with-Fair :
        (cb : S) (effects : List (Effect R T E)) (s : State) (cause : ShutdownType)
        → spent_all u v effects ≡ 0
        → Fair u v s 0 (stop_with cb effects s cause)
    unfolding stop_with
    stop_with-Fair cb effects s cause h =
        omega (
          arith,
          shutdown-Kept s cause,
          total-append (spent u v) effects (drain_slots cause s.slots),
        )

    after_error-Fair :
        (effects : List (Effect R T E)) (s : State) (answer : HandlingStrategy × S)
        → spent_all u v effects ≡ 0
        → Fair u v s 0 (after_error effects s answer)
    unfolding after_error
    after_error-Fair effects s (stop cause, cb) h = stop_with-Fair cb effects s cause h
    after_error-Fair effects s (ignore, cb) h = omega arith

    after_message-Fair :
        (cb : S) (effects : List (Effect R T E)) (s : State)
        (t : State × List (Effect R T E) × Option ShutdownType)
        → spent_all u v effects ≡ 0
        → mass u v t.0 + spent_all u v t.1 ≡ mass u v s
        → Fair u v s 0 (after_message cb effects t)
    unfolding after_message
    after_message-Fair cb effects s (t, more, none) h e =
        omega (arith, total-append (spent u v) effects more)
    after_message-Fair cb effects s (t, more, some cause) h e = omega (
      arith,
      shutdown-Kept t cause,
      total-append (spent u v) effects more,
      total-append (spent u v) (effects ++ more) (shutdown t cause).1,
    )

    handle_message-Kept :
        (s : State) (m : Message T)
        → let t = handle_message {R = R} {T = T} {E = E} s m in
          mass u v t.0 + spent_all u v t.1 ≡ mass u v s
    unfolding handle_message
    handle_message-Kept s (Message.response id r) = omega (arith, respond-Kept s id r)
    handle_message-Kept s Message.aborted = omega arith
    handle_message-Kept s Message.shutdown = omega arith

    receive-Fair :
        (c : Settings E S) (cb : S) (s : State) (o : Option (Received T E))
        → Fair u v {R = R} {T = T} {E = E} s 0 (receive c cb s o)
    unfolding receive
    receive-Fair c cb s none = stop_with-Fair cb [] s ShutdownType.closed refl
    receive-Fair c cb s (some (Received.err e)) =
        after_error-Fair _ s (c.on_receive_error cb e) (reset_if-free c.has_timeout)
    receive-Fair c cb s (some (Received.ok m)) =
        after_message-Fair cb _ s (handle_message s m) (reset_if-free c.has_timeout)
          (handle_message-Kept s m)

    drop_result_sender-spent :
        (r : ResultSender)
        → spent_all u v {R = R} {T = T} {E = E} (drop_result_sender r) ≡ brought u v r
    drop_result_sender-spent (ResultSender.value s) = omega arith
    drop_result_sender-spent (ResultSender.stream s i) = omega arith
    drop_result_sender-spent ResultSender.abort = omega arith

    take_request-Fair :
        (cb : S) (effects : List (Effect R T E)) (s : State) (k : ℕ) (taken : Taken R E)
        → spent_all u v effects ≡ 0
        → Fair u v s (brought u v taken.result_sender) (take_request cb effects s k taken)
    unfolding take_request
    take_request-Fair cb effects s k taken h = elim (Option-cases (get_elem? s.slots k)) [
      | inl e ↦
          rw (e, take_request)
            (omega (
              arith,
              total-append (spent u v) effects (drop_result_sender taken.result_sender),
              drop_result_sender-spent taken.result_sender,
            ))
      | inr (slot, e) ↦
          let change : Change R T E =
            (request_slot {T = T} s.pending slot taken.message.id taken.result_sender
              taken.failure).0 in
          rw (e, take_request)
            (omega (
              arith,
              total-append (spent u v) effects change.effects,
              put_change-Kept s k change slot (brought u v taken.result_sender) e (
                  request_slot-Balanced u v R T E s.pending slot taken.message.id
                    taken.result_sender taken.failure),
            ))
    ]

    pub step-Fair :
        (c : Settings E S) (cb : S) (s : State) (event : Event R T E)
        → Fair u v s (brought_by u v event) (step c cb s event)
    unfolding step
    step-Fair c cb s (received o) = receive-Fair c cb s o
    step-Fair c cb s (requested k none) = omega arith
    step-Fair c cb s (requested k (some taken)) =
        take_request-Fair cb (reset_if c.has_timeout ++ send_message taken.message ∷ []) s k taken
          (head-free c.has_timeout taken.message)
    step-Fair c cb s timed_out = elim (Bool-cases (c.has_timeout && not (idle s))) [
      | inl e ↦ rw e (stop_with-Fair cb [] s ShutdownType.timeout refl)
      | inr e ↦ rw e (omega arith)
    ]
    step-Fair c cb s (shut_down cause) = stop_with-Fair cb [] s cause refl
    step-Fair c cb s consumer_dropped = omega arith
