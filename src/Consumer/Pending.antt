-- ===== src/Consumer/Pending.antt =====
-- `pending` counts the requests that have no answer yet, so `idle` tells whether there are any.
use zzrpc.Prelude.{
  ℕ, ◌+◌, ◌%◌, ◌<◌, ◌≡◌, ◌↔◌, inl, inr, Option, none, some, Option-cases, List, [], ◌∷◌, ◌++◌,
  arith, total, total-set, set, get_elem?, weight, Bool, true, Bool-cases, ◌&&◌, not, usize_mod,
}
use zzrpc.Prelude.Table.{lookup, weigh, weigh-insert, weigh-remove}
use zzrpc.Rpc.{HandlingStrategy, stop, ignore, TransportError}
use zzrpc.Message.{Response, StreamResponse, Message, ResultSender}
use zzrpc.Consumer.State.{
  Effect, send_message, Entry, Slot, values, streams, State, Change, put_change, new,
}
use zzrpc.Consumer.Handle.{respond, method, respond_slot, handle_message, idle}
use zzrpc.Consumer.Take.{continue_, request_slot}
use zzrpc.Consumer.Loop.{
  Received, Taken, Event, received, requested, timed_out, shut_down, consumer_dropped, Settings,
  after_error, take_request, step, reset_if,
}
use zzrpc.Consumer.Mass.{mass_slot, mass_entry, mass}
use zzrpc.Consumer.Conservation.{mass-new}

-- 1 for each request of a slot whose sender is still there.
abbrev pub unanswered : Slot → ℕ
unanswered = mass_slot (λ _. 1) (λ _. 0)

abbrev pub outstanding : State → ℕ
outstanding = mass (λ _. 1) (λ _. 0)

abbrev pub unopened : Entry → ℕ
unopened = mass_entry (λ _. 1) (λ _. 0)

-- What the protocol grants: a stream is closed only after it was opened, and the id of a new
-- request is not in use.
abbrev pub RespondFits : {T : Type 0} → Slot → ℕ → Response T → Type 0
RespondFits (streams t) id (Response.stream k StreamResponse.closed) =
    weight unopened (lookup id t) ≡ 0
RespondFits _ id r = Unit {0}

abbrev pub RequestFits : Slot → ℕ → ResultSender → Type 0
RequestFits (values t) id (ResultSender.value s) = lookup id t ≡ none
RequestFits (streams t) id (ResultSender.stream s i) = lookup id t ≡ none
RequestFits _ id r = Unit {0}

module _ (R T E : Type 0) where
  -- `rest` requests stand in the other slots.
  abbrev Counts : ℕ → Change R T E → Type 0
  Counts rest c = c.pending ≡ (rest + unanswered c.slot) % usize_mod

  respond_slot-Counts :
      (rest p : ℕ) (slot : Slot) (id : ℕ) (r : Response T)
      → RespondFits slot id r
      → p ≡ (rest + unanswered slot) % usize_mod
      → Counts rest (respond_slot p slot id r)
  unfolding respond_slot
  respond_slot-Counts rest p (values t) id (Response.value k x) f h =
      ground (arith, weigh-remove (λ _. 1) id t)
  respond_slot-Counts rest p (streams t) id (Response.stream k StreamResponse.open_) f h =
      elim (Option-cases (lookup id t)) [
        | inl e ↦ ground arith
        | inr (entry, e) ↦
            ground (arith, weigh-insert unopened id (record entry { result = none }) t)
      ]
  respond_slot-Counts rest p (streams t) id (Response.stream k (StreamResponse.item x)) f h =
      ground arith
  respond_slot-Counts rest p (streams t) id (Response.stream k StreamResponse.closed) f h =
      ground (arith, weigh-remove unopened id t)
  respond_slot-Counts rest p (values t) id (Response.stream k x) f h = h
  respond_slot-Counts rest p (streams t) id (Response.value k x) f h = h

  request_slot-Counts :
      (rest p : ℕ) (slot : Slot) (id : ℕ) (r : ResultSender) (failure : Option (TransportError E))
      → RequestFits slot id r
      → p ≡ (rest + unanswered slot) % usize_mod
      → Counts rest (request_slot p slot id r failure).0
  unfolding request_slot
  request_slot-Counts rest p (values t) id (ResultSender.value s) none f h =
      ground (arith, weigh-insert (λ _. 1) id s t)
  request_slot-Counts rest p (values t) id (ResultSender.value s) (some e) f h = h
  request_slot-Counts rest p (values t) id ResultSender.abort failure f h =
      ground (arith, weigh-remove (λ _. 1) id t)
  request_slot-Counts rest p (values t) id (ResultSender.stream s i) failure f h = h
  request_slot-Counts rest p (streams t) id (ResultSender.value s) failure f h = h
  request_slot-Counts rest p (streams t) id ResultSender.abort failure f h =
      ground (arith, weigh-remove unopened id t)
  request_slot-Counts rest p (streams t) id (ResultSender.stream s i) none f h =
      ground (arith, weigh-insert unopened id (record { result = some s; items = i }) t)
  request_slot-Counts rest p (streams t) id (ResultSender.stream s i) (some e) f h = h

abbrev pub IsCounted : State → Type 0
IsCounted s = s.pending ≡ outstanding s % usize_mod

put_change-IsCounted :
    {R T E : Type 0} (s : State) (k : ℕ) (c : Change R T E) (slot : Slot)
    → get_elem? s.slots k ≡ some slot
    → ((rest : ℕ)
        → s.pending ≡ (rest + unanswered slot) % usize_mod
        → c.pending ≡ (rest + unanswered c.slot) % usize_mod)
    → IsCounted s
    → IsCounted (put_change s k c).0
unfolding put_change weigh
put_change-IsCounted s k c slot e h i =
    let rest = total unanswered (set s.slots k (values [])) in
    omega (
      arith,
      h rest (omega (arith, i, total-set unanswered s.slots k slot (values []) e)),
      total-set unanswered s.slots k slot (values []) e,
      total-set unanswered s.slots k slot c.slot e,
    )

-- The slot that an event is for, and what the protocol grants of the event.
abbrev pub EventFits : {R T E : Type 0} → State → Event R T E → Type 0
EventFits s (received (some (Received.ok (Message.response id r)))) =
    (slot : Slot) → get_elem? s.slots (method r) ≡ some slot → RespondFits slot id r
EventFits s (requested k (some taken)) =
    (slot : Slot)
    → get_elem? s.slots k ≡ some slot
    → RequestFits slot taken.message.id taken.result_sender
EventFits s _ = Unit {0}

module _ (R T E : Type 0) where
  respond-IsCounted :
      (s : State) (id : ℕ) (r : Response T)
      → ((slot : Slot) → get_elem? s.slots (method r) ≡ some slot → RespondFits slot id r)
      → IsCounted s
      → IsCounted (respond {R = R} {T = T} {E = E} s id r).0
  unfolding respond
  respond-IsCounted s id r f i = elim (Option-cases (get_elem? s.slots (method r))) [
    | inl e ↦ rw (e, respond) i
    | inr (slot, e) ↦
        rw (e, respond)
          (put_change-IsCounted s (method r)
            (respond_slot {R = R} {T = T} {E = E} s.pending slot id r) slot e
            (λ rest. respond_slot-Counts R T E rest s.pending slot id r (f slot e)) i)
  ]

  module _ (S : Type 0) where
    after_error-IsCounted :
        (effects : List (Effect R T E)) (s : State) (answer : HandlingStrategy × S)
        → (after_error effects s answer).flow ≡ continue_
        → IsCounted s
        → IsCounted (after_error effects s answer).state
    unfolding after_error
    after_error-IsCounted effects s (stop cause, cb) goes i = cc
    after_error-IsCounted effects s (ignore, cb) goes i = i

    take_request-IsCounted :
        (cb : S) (effects : List (Effect R T E)) (s : State) (k : ℕ) (taken : Taken R E)
        → ((slot : Slot)
            → get_elem? s.slots k ≡ some slot
            → RequestFits slot taken.message.id taken.result_sender)
        → IsCounted s
        → IsCounted (take_request cb effects s k taken).state
    unfolding take_request
    take_request-IsCounted cb effects s k taken f i = elim (Option-cases (get_elem? s.slots k)) [
      | inl e ↦ rw (e, take_request) i
      | inr (slot, e) ↦
          let id = taken.message.id in
          let change : Change R T E =
            (request_slot s.pending slot id taken.result_sender taken.failure).0 in
          rw (e, take_request)
            (put_change-IsCounted s k change slot e
              (λ rest.
                request_slot-Counts R T E rest s.pending slot id taken.result_sender taken.failure
                  (f slot e))
              i)
    ]

-- A round that goes on keeps the count, modulo the width of `usize`.
pub step-IsCounted :
    {R T E S : Type 0} (c : Settings E S) (cb : S) (s : State) (event : Event R T E)
    → EventFits s event
    → (step c cb s event).flow ≡ continue_
    → IsCounted s
    → IsCounted (step c cb s event).state
unfolding step handle_message
step-IsCounted c cb s (received none) f goes i = cc
step-IsCounted {R} {T} {E} {S} c cb s (received (some (Received.err e))) f goes i =
    after_error-IsCounted R T E S _ s (c.on_receive_error cb e) goes i
step-IsCounted {R} {T} {E} c cb s (received (some (Received.ok (Message.response id r)))) f goes i =
    respond-IsCounted R T E s id r f i
step-IsCounted c cb s (received (some (Received.ok Message.aborted))) f goes i = cc
step-IsCounted c cb s (received (some (Received.ok Message.shutdown))) f goes i = cc
step-IsCounted c cb s (requested k none) f goes i = i
step-IsCounted {R} {T} {E} {S} c cb s (requested k (some taken)) f goes i =
    take_request-IsCounted R T E S cb (reset_if c.has_timeout ++ send_message taken.message ∷ []) s
      k taken f i
step-IsCounted c cb s timed_out f goes i = elim (Bool-cases (c.has_timeout && not (idle s))) [
  | inl e ↦ cc
  | inr e ↦ rw e i
]
step-IsCounted c cb s (shut_down cause) f goes i = cc
step-IsCounted c cb s consumer_dropped f goes i = cc

-- The states of a loop that was started by `consume_unreliable` and goes on, as the protocol has it.
pub data Reach (R T : Type 0) {E S : Type 0} (c : Settings E S) (cb : S) (kinds : List Bool)
    : S → State → Type 0 where
  start : Reach R T c cb kinds cb (new kinds)
  later :
      {b : S} {s : State}
      → (event : Event R T E) → Reach R T c cb kinds b s
      → EventFits s event
      → (step c b s event).flow ≡ continue_
      → Reach R T c cb kinds (step c b s event).callback (step c b s event).state

new-IsCounted : (kinds : List Bool) → IsCounted (new kinds)
unfolding new
new-IsCounted kinds = omega (arith, mass-new (λ _. 1) (λ _. 0) kinds)

Reach-IsCounted :
    {R T E S : Type 0} {c : Settings E S} {cb : S} {kinds : List Bool} {b : S} {s : State}
    → Reach R T c cb kinds b s
    → IsCounted s
Reach-IsCounted {kinds} start = new-IsCounted kinds
Reach-IsCounted {c} (later {b} {s} event r f goes) =
    step-IsCounted c b s event f goes (Reach-IsCounted r)

-- In every state that the loop of a new consumer reaches, while no stream is closed before it was
-- opened and no request comes with an id in use: `pending` is the number of requests without an
-- answer, and `idle` holds exactly when there is none, if there are fewer than `usize` can count.
pub Reach-idle :
    {R T E S : Type 0} {c : Settings E S} {cb : S} {kinds : List Bool} {b : S} {s : State}
    → Reach R T c cb kinds b s
    → outstanding s < usize_mod
    → (s.pending ≡ outstanding s) × ((idle s ≡ true) ↔ (outstanding s ≡ 0))
unfolding idle
Reach-idle r small = let i = Reach-IsCounted r in ground arith
