-- ===== src/System/Effects.antt =====
-- The rounds of both tasks keep to the log.
use zzrpc.Prelude.{
  ℕ, ◌≡◌, refl, inl, inr, Bool, true, false, not, ◌&&◌, Bool-cases, Option, none, some, List, [],
  ◌∷◌, ◌++◌, map,
}
use zzrpc.Rpc.{HandlingStrategy, ShutdownType, stop, ignore, TransportError}
use zzrpc.Message.{Payload, Message, ResultSender}
use zzrpc.Consumer.State.{Effect, send_message, State}
use zzrpc.Consumer.Handle.{handle_message, idle}
use zzrpc.Consumer.Take.{continue_}
use zzrpc.Consumer.Loop as Loop
use zzrpc.Consumer.Loop.{
  Event, Received, received, requested, timed_out, shut_down, consumer_dropped, Settings,
  after_error, step, reset_if, Taken,
}
use zzrpc.Consumer.Tables.{IsDistinct}
use zzrpc.Producer.Loop as Main
use zzrpc.Producer.Loop.{farewell, reply_option}
use zzrpc.Producer.Requests as Requests
use zzrpc.System.{
  Sent, asks, aborts, channel_of, message_of, sender_of, taken, task_of, delivered, other_event,
}
use zzrpc.System.Log.{Log}
use zzrpc.System.Genuine.{
  All, All-append, SentFits, PayloadFits, RequestFits, TaskFits, MessageFits, StateFits, EffectFits,
}
use zzrpc.System.Delivery.{respond-Fits, take_request-Fits, SenderFits}

module _ {R T : Type 0} (method_of : R → ℕ) (l : Log R T) where
  pub delivered-Fits :
      {E : Type 0} (x : Sent R) (failure : Option E)
      → SentFits method_of l x
      → All (RequestFits method_of l) (delivered (message_of x) failure)
  delivered-Fits (asks k id r sender) none (h, m, p) = (h, tt)
  delivered-Fits (asks k id r sender) (some e) f = tt
  delivered-Fits (aborts k id) none f = (tt, tt)
  delivered-Fits (aborts k id) (some e) f = tt

  module _ {E S : Type 0} (c : Settings E S) (cb : S) (s : State) where
    -- The state and the effects of a round keep to the log.
    abbrev pub RoundFits : Loop.Round R T E S → Type 0
    RoundFits round = StateFits method_of l round.state × All (EffectFits method_of l) round.effects

    reset_if-Fits : (b : Bool) → All (EffectFits method_of l {E = E}) (reset_if b)
    reset_if-Fits true = (tt, tt)
    reset_if-Fits false = tt

    sent-SenderFits :
        (x : Sent R)
        → SentFits method_of l x
        → SenderFits method_of l E (message_of x).id (sender_of x)
    sent-SenderFits (asks k id r (ResultSender.value sender)) (h, m, p) = p
    sent-SenderFits (asks k id r (ResultSender.stream sender items)) (h, m, p) = p
    sent-SenderFits (asks k id r ResultSender.abort) (h, m, p) = tt
    sent-SenderFits (aborts k id) h = tt

    pub take-RoundFits :
        (x : Sent R) (failure : Option (TransportError E))
        → IsDistinct s
        → StateFits method_of l s
        → SentFits method_of l x
        → (step {T = T} c cb s (taken x failure)).flow ≡ continue_
        → RoundFits (step c cb s (taken x failure))
    unfolding step
    take-RoundFits x failure d f h goes =
        let effects : List (Effect R T E) =
          reset_if c.has_timeout ++ send_message (message_of x) ∷ [] in
        let t : Taken R E = record {
          message = message_of x;
          result_sender = sender_of x;
          failure = failure;
        } in
        take_request-Fits method_of l E cb effects s (channel_of x) t d f (sent-SenderFits x h)
          (All-append (EffectFits method_of l) (reset_if c.has_timeout)
            (send_message (message_of x) ∷ []) (reset_if-Fits c.has_timeout) (tt, tt))
          goes

    pub receive-RoundFits :
        (m : Message T)
        → IsDistinct s
        → StateFits method_of l s
        → MessageFits method_of l m
        → (step {R = R} c cb s (received (some (Received.ok m)))).flow ≡ continue_
        → RoundFits (step c cb s (received (some (Received.ok m))))
    unfolding step handle_message
    receive-RoundFits (Message.response id r) d f h goes =
        let (state, effects) = respond-Fits method_of l E s id r d f h in
        (
          state,
          All-append (EffectFits method_of l) (reset_if c.has_timeout) _
              (reset_if-Fits c.has_timeout) effects,
        )
    receive-RoundFits Message.aborted d f h goes = cc
    receive-RoundFits Message.shutdown d f h goes = cc

    after_error-RoundFits :
        (answer : HandlingStrategy × S)
        → StateFits method_of l s
        → (after_error {R = R} {T = T} {E = E} (reset_if c.has_timeout) s answer).flow ≡ continue_
        → RoundFits (after_error (reset_if c.has_timeout) s answer)
    unfolding after_error
    after_error-RoundFits (stop cause, cb') f goes = cc
    after_error-RoundFits (ignore, cb') f goes = (f, reset_if-Fits c.has_timeout)

    pub other-RoundFits :
        (event : Event R T E)
        → StateFits method_of l s
        → other_event event ≡ true
        → (step c cb s event).flow ≡ continue_
        → RoundFits (step c cb s event)
    unfolding step
    other-RoundFits (received none) f h goes = cc
    other-RoundFits (received (some (Received.err e))) f h goes =
        after_error-RoundFits (c.on_receive_error cb e) f goes
    other-RoundFits (received (some (Received.ok m))) f h goes = cc
    other-RoundFits (requested k none) f h goes = (f, tt)
    other-RoundFits (requested k (some x)) f h goes = cc
    other-RoundFits timed_out f h goes = elim (Bool-cases (c.has_timeout && not (idle s))) [
      | inl e ↦ cc
      | inr e ↦ rw e (f, tt)
    ]
    other-RoundFits (shut_down cause) f h goes = cc
    other-RoundFits consumer_dropped f h goes = cc

  pub spawned-Fits :
      (id : ℕ) (p : Payload R)
      → PayloadFits method_of l id p
      → All (TaskFits method_of l) (map (task_of method_of) (Requests.asked id p))
  spawned-Fits id (Payload.request r) h = ((r, h, refl), tt)
  spawned-Fits id Payload.abort h = tt

  farewell-Fits :
      (cause : ShutdownType)
      → All (MessageFits method_of l) (Requests.replies {R = R} (reply_option (farewell cause)))
  unfolding farewell
  farewell-Fits ShutdownType.closed = tt
  farewell-Fits ShutdownType.shutdown = (tt, tt)
  farewell-Fits ShutdownType.aborted = (tt, tt)
  farewell-Fits ShutdownType.timeout = tt

  -- What the main task says itself.
  pub told-Fits :
      (F P : Type 0) (asked : List (ℕ × R)) (round : Main.Round R T P)
      → Requests.Tells R T F P asked round
      → All (MessageFits method_of l) (Requests.replies round.effects)
  told-Fits F P asked round (started, on, off) = elim (Bool-cases round.goes_on) [
    | inl e ↦ rw (on e) tt
    | inr e ↦ rw (off e) (farewell-Fits round.state.return_value)
  ]
