-- ===== src/Consumer/Answers.antt =====
-- A request and its answer, through the loop of the consumer.
use mathlib.Core.List.{append-nil}
use zzrpc.Prelude.{
  ℕ, ◌<◌, ◌≡◌, ap, ◌∙◌, none, some, List, [], ◌∷◌, ◌++◌, arith, get_elem?, set, set-set, set_same,
  get_elem?-set_self, usize_mod, usize_inc,
}
use zzrpc.Prelude.Table.{Table, lookup, insert, lookup-insert, remove-insert}
use zzrpc.Message.{Request, Result, ResultSender, Response, Message}
use zzrpc.Consumer.State.{Effect, send_message, send_result, Slot, values, State, put_change}
use zzrpc.Consumer.Handle.{respond, respond_slot, handle_message}
use zzrpc.Consumer.Take.{continue_, request_slot, replaced_sender}
use zzrpc.Consumer.Loop.{
  Received, Event, requested, received, Round, Settings, Outcome, reset_if, run, step, take_request,
}

-- A round that goes on.
abbrev pub goes : {R T E S : Type 0} → S → State → List (Effect R T E) → Round R T E S
goes cb s effects = record { state = s; callback = cb; effects = effects; flow = continue_ }

module _ (R T E S : Type 0) where
  inserted : State → ℕ → Table ℕ → ℕ → ℕ → State
  inserted s k t id sender = record {
    pending = usize_inc s.pending;
    slots = set s.slots k (values (insert id sender t));
  }

  step-value_request :
      (c : Settings E S) (cb : S) (s : State) (k : ℕ) (t : Table ℕ) (m : Request R) (sender : ℕ)
      → get_elem? s.slots k ≡ some (values t)
      → lookup m.id t ≡ none
      → step {T = T} c cb s (
          requested k (
            some
              (record { message = m; result_sender = ResultSender.value sender; failure = none })))
        ≡ goes cb (inserted s k t m.id sender) (reset_if c.has_timeout ++ send_message m ∷ [])
  unfolding step inserted request_slot
  step-value_request c cb s k t m sender e f =
      rw (e, take_request) (rw (f, replaced_sender) (simp append-nil))

  -- A change that restores the slot restores the state.
  put_change_back :
      (s : State) (k p : ℕ) (slot slot' : Slot) (effects : List (Effect R T E))
      → get_elem? s.slots k ≡ some slot
      → put_change
          (record { pending = p; slots = set s.slots k slot' })
          k
          (record { pending = s.pending; slot = slot; effects = effects })
        ≡ (s, effects)
  unfolding put_change
  put_change_back s k p slot slot' effects e =
      rw (set-set s.slots k slot' slot, set_same s.slots k slot e)

  respond_slot_inserted :
      (p : ℕ) (t : Table ℕ) (id sender k : ℕ) (x : T)
      → lookup id t ≡ none
      → p < usize_mod
      → respond_slot {R = R} {E = E}
          (usize_inc p)
          (values (insert id sender t))
          id
          (Response.value k x)
        ≡ record { pending = p; slot = values t; effects = send_result sender (Result.ok x) ∷ [] }
  unfolding respond_slot
  respond_slot_inserted p t id sender k x f h =
      ground (arith, lookup-insert id id sender t, remove-insert id sender t f)

  respond-inserted :
      (s : State) (k : ℕ) (t : Table ℕ) (id : ℕ) (x : T) (sender : ℕ)
      → get_elem? s.slots k ≡ some (values t)
      → lookup id t ≡ none
      → s.pending < usize_mod
      → respond {R = R} {E = E} (inserted s k t id sender) id (Response.value k x)
        ≡ (s, send_result sender (Result.ok x) ∷ [])
  unfolding respond inserted
  respond-inserted s k t id x sender e f h =
      let slot' = values (insert id sender t) in
      rw
        (
          get_elem?-set_self s.slots k (values t) slot' e,
          respond,
          respond_slot_inserted s.pending t id sender k x f h,
        )
        (put_change_back s k (usize_inc s.pending) (values t) slot' _ e)

  step-value_response :
      (c : Settings E S) (cb : S) (s : State) (k : ℕ) (t : Table ℕ) (id : ℕ) (x : T) (sender : ℕ)
      → get_elem? s.slots k ≡ some (values t)
      → lookup id t ≡ none
      → s.pending < usize_mod
      → step {R = R} c cb
          (inserted s k t id sender)
          (received (some (Received.ok (Message.response id (Response.value k x)))))
        ≡ goes cb s (reset_if c.has_timeout ++ send_result sender (Result.ok x) ∷ [])
  unfolding step handle_message
  step-value_response c cb s k t id x sender e f h = rw (respond-inserted s k t id x sender e f h)

abbrev pub value_request : {R T E : Type 0} → ℕ → Request R → ℕ → Event R T E
value_request k m sender =
    requested k
      (some (record { message = m; result_sender = ResultSender.value sender; failure = none }))

abbrev pub message_event : {R T E : Type 0} → Message T → Event R T E
message_event m = received (some (Received.ok m))

-- The outcome `o`, with effects before its own.
abbrev pub preceded : {R T E : Type 0} → List (Effect R T E) → Outcome R T E → Outcome R T E
preceded effects o = record o { effects = effects ++ o.effects }

pub run-goes :
    {R T E S : Type 0} (c : Settings E S) (cb : S) (s s' : State) (event : Event R T E)
    (effects : List (Effect R T E)) (events : List (Event R T E))
    → step c cb s event ≡ goes cb s' effects
    → run c cb s (event ∷ events) ≡ preceded effects (run c cb s' events)
unfolding run
run-goes c cb s s' event effects events e = rw e

-- A value request with a fresh id that is sent, then answered: the message goes to the transport,
-- the answer goes to the sender of the request, and the loop is where it was before the request.
pub request_answered :
    {R T E S : Type 0} (c : Settings E S) (cb : S) (s : State) (k : ℕ) (t : Table ℕ) (m : Request R)
    (sender : ℕ) (x : T) (events : List (Event R T E))
    → get_elem? s.slots k ≡ some (values t)
    → lookup m.id t ≡ none
    → s.pending < usize_mod
    → run c cb s (
        value_request k m sender
        ∷ message_event (Message.response m.id (Response.value k x))
        ∷ events)
      ≡ preceded (reset_if c.has_timeout ++ send_message m ∷ []) (
          preceded
            (reset_if c.has_timeout ++ send_result sender (Result.ok x) ∷ [])
            (run c cb s events))
request_answered {R} {T} {E} {S} c cb s k t m sender x events e f h =
    run-goes c cb s _ _ _ _ (step-value_request R T E S c cb s k t m sender e f)
    ∙ ap (preceded _)
        (run-goes c cb _ s _ _ events (step-value_response R T E S c cb s k t m.id x sender e f h))
