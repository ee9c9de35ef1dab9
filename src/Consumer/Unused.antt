-- ===== src/Consumer/Unused.antt =====
-- Which ids the tables of the consumer's loop can have: those of the requests that it has taken.
use zzrpc.Prelude.{
  ℕ, ◌≡◌, refl, inl, inr, Option, none, some, Option-cases, Bool, true, false, not, ◌&&◌, ◌||◌,
  List, [], ◌∷◌, ◌++◌, arith, get_elem?, ◌==◌, ==_iff, Bool-cases,
}
use zzrpc.Prelude.Table.{lookup, lookup-insert, lookup-remove_ne}
use zzrpc.Rpc.{HandlingStrategy, stop, ignore, TransportError}
use zzrpc.Message.{Response, Message, ResultSender}
use zzrpc.Consumer.State.{
  Effect, send_message, Slot, values, streams, State, Change, put_change, new,
}
use zzrpc.Consumer.Handle.{respond, method, handle_message, idle}
use zzrpc.Consumer.Take.{Flow, continue_, break_, panic, request_slot}
use zzrpc.Consumer.Loop.{
  Received, Taken, Event, received, requested, timed_out, shut_down, consumer_dropped, Settings,
  Round, Outcome, after_error, take_request, step, conclude, run, reset_if,
}
use zzrpc.Consumer.Routing.{
  value_at, stream_at, Same, Same-at, other-at, respond-frame, respond_absent,
}

-- No method has a request `j`.
abbrev pub Unused : ℕ → State → Type 0
Unused j s = (i : ℕ) → (value_at s i j ≡ none) × (stream_at s i j ≡ none)

abbrev pub asks_for : {R T E : Type 0} → ℕ → Event R T E → Bool
asks_for j (requested k (some taken)) = taken.message.id == j
asks_for j _ = false

abbrev pub any_asks_for : {R T E : Type 0} → ℕ → List (Event R T E) → Bool
any_asks_for j [] = false
any_asks_for j (event ∷ events) = asks_for j event || any_asks_for j events

module _ (j : ℕ) (R T E : Type 0) where
  pub new-Unused : (kinds : List Bool) → Unused j (new kinds)
  unfolding new lookup
  new-Unused [] i = (refl, refl)
  new-Unused (false ∷ kinds) ℕ.zero = (refl, refl)
  new-Unused (true ∷ kinds) ℕ.zero = (refl, refl)
  new-Unused (b ∷ kinds) (ℕ.suc i) = new-Unused kinds i

  pub put_change-Unused :
      (s : State) (k : ℕ) (slot : Slot) (c : Change R T E)
      → get_elem? s.slots k ≡ some slot
      → Same R T E slot c.slot j
      → Unused j s
      → Unused j (put_change s k c).0
  put_change-Unused s k slot c e same u i = elim (Bool-cases (k == i)) [
    | inl eq ↦
        let (v, w) = Same-at R T E s k slot c j e same in rw (← (==_iff k i).0 eq) (rw (v, w) (u k))
    | inr ne ↦ let (v, w) = other-at R T E s k i c j ne in rw (v, w) (u i)
  ]

  pub respond-Unused :
      (s : State) (id : ℕ) (r : Response T)
      → Unused j s
      → Unused j (respond {R = R} {T = T} {E = E} s id r).0
  respond-Unused s id r u = elim (Bool-cases (id == j)) [
    | inl eq ↦
        let same : id ≡ j = (==_iff id j).0 eq in
        let (v, w) = u (method r) in rw (respond_absent R T E s id r (rw same v) (rw same w)) u
    | inr ne ↦ λ i. let (v, w) = respond-frame R T E s id r i j (inr ne) in rw (v, w) (u i)
  ]

  pub request_slot-Same :
      (p : ℕ) (slot : Slot) (id : ℕ) (r : ResultSender) (failure : Option (TransportError E))
      → (id == j) ≡ false
      → Same R T E slot (request_slot {R = R} {T = T} {E = E} p slot id r failure).0.slot j
  unfolding request_slot
  request_slot-Same p (values t) id (ResultSender.value s) none h =
      ground (arith, lookup-insert id j s t)
  request_slot-Same p (values t) id (ResultSender.value s) (some e) h = (refl, refl)
  request_slot-Same p (values t) id ResultSender.abort f h =
      ground (arith, lookup-remove_ne id j t h)
  request_slot-Same p (values t) id (ResultSender.stream s x) f h = (refl, refl)
  request_slot-Same p (streams t) id (ResultSender.stream s x) none h =
      ground (arith, lookup-insert id j (record { result = some s; items = x }) t)
  request_slot-Same p (streams t) id (ResultSender.stream s x) (some e) h = (refl, refl)
  request_slot-Same p (streams t) id ResultSender.abort f h =
      ground (arith, lookup-remove_ne id j t h)
  request_slot-Same p (streams t) id (ResultSender.value s) f h = (refl, refl)

  module _ (S : Type 0) where
    after_error-Unused :
        (effects : List (Effect R T E)) (s : State) (answer : HandlingStrategy × S)
        → (after_error effects s answer).flow ≡ continue_
        → Unused j s
        → Unused j (after_error effects s answer).state
    unfolding after_error
    after_error-Unused effects s (stop cause, cb) goes u = cc
    after_error-Unused effects s (ignore, cb) goes u = u

    pub take_request-Unused :
        (cb : S) (effects : List (Effect R T E)) (s : State) (k : ℕ) (taken : Taken R E)
        → (taken.message.id == j) ≡ false
        → Unused j s
        → Unused j (take_request cb effects s k taken).state
    unfolding take_request
    take_request-Unused cb effects s k taken h u = elim (Option-cases (get_elem? s.slots k)) [
      | inl e ↦ rw (e, take_request) u
      | inr (slot, e) ↦
          let id = taken.message.id in
          let change : Change R T E =
            (request_slot s.pending slot id taken.result_sender taken.failure).0 in
          rw (e, take_request)
            (put_change-Unused s k slot change e
              (request_slot-Same s.pending slot id taken.result_sender taken.failure h) u)
    ]

    step-Unused :
        (c : Settings E S) (cb : S) (s : State) (event : Event R T E)
        → asks_for j event ≡ false
        → (step c cb s event).flow ≡ continue_
        → Unused j s
        → Unused j (step c cb s event).state
    unfolding step handle_message
    step-Unused c cb s (received none) h goes u = cc
    step-Unused c cb s (received (some (Received.err e))) h goes u =
        after_error-Unused _ s (c.on_receive_error cb e) goes u
    step-Unused c cb s (received (some (Received.ok (Message.response id r)))) h goes u =
        respond-Unused s id r u
    step-Unused c cb s (received (some (Received.ok Message.aborted))) h goes u = cc
    step-Unused c cb s (received (some (Received.ok Message.shutdown))) h goes u = cc
    step-Unused c cb s (requested k none) h goes u = u
    step-Unused c cb s (requested k (some taken)) h goes u =
        take_request-Unused cb (reset_if c.has_timeout ++ send_message taken.message ∷ []) s k taken
          h u
    step-Unused c cb s timed_out h goes u = elim (Bool-cases (c.has_timeout && not (idle s))) [
      | inl e ↦ cc
      | inr e ↦ rw e u
    ]
    step-Unused c cb s (shut_down cause) h goes u = cc
    step-Unused c cb s consumer_dropped h goes u = cc

    conclude-goes :
        (flow : Flow) (round : Round R T E S) (events : List (Event R T E)) (later : Outcome R T E)
        (s : State)
        → (conclude flow round events later).left ≡ some s
        → (flow ≡ continue_) × (later.left ≡ some s)
    unfolding conclude
    conclude-goes continue_ round events later s e = (refl, e)
    conclude-goes break_ round events later s e = cc
    conclude-goes panic round events later s e = cc

    run-keeps :
        (c : Settings E S) (cb : S) (s s' : State) (events : List (Event R T E))
        → (run c cb s events).left ≡ some s'
        → any_asks_for j events ≡ false
        → Unused j s
        → Unused j s'
    unfolding run
    run-keeps c cb s s' [] e h u = let same : s ≡ s' = cc in rw (← same) u
    run-keeps c cb s s' (event ∷ events) e h u =
        let round = step c cb s event in
        let (goes, later) =
          conclude-goes round.flow round events (run c round.callback round.state events) s' e in
        run-keeps c round.callback round.state s' events later (ground arith)
          (step-Unused c cb s event (ground arith) goes u)

-- While the loop of a new consumer runs, and no request or abort with the id `j` was taken from the
-- channel of a method: no method has a request `j`, and a response with that id changes nothing and
-- calls nothing.
pub run-Unused :
    {R T E S : Type 0} (c : Settings E S) (cb : S) (kinds : List Bool) (events : List (Event R T E))
    (s : State) (j : ℕ)
    → (run c cb (new kinds) events).left ≡ some s
    → any_asks_for j events ≡ false
    → ((i : ℕ) → (value_at s i j ≡ none) × (stream_at s i j ≡ none))
      × ((r : Response T) → respond {R = R} {T = T} {E = E} s j r ≡ (s, []))
run-Unused {R} {T} {E} {S} c cb kinds events s j e h =
    let u = run-keeps j R T E S c cb (new kinds) s events e h (new-Unused j R T E kinds) in
    (u, λ r. respond_absent R T E s j r (u (method r)).0 (u (method r)).1)
