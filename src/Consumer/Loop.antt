-- ===== src/Consumer/Loop.antt =====
-- zzrpc-derive/src/lib.rs, `impl_consume`: the task that `consume_unreliable` spawns. A round of
-- its `select!` is an event: the arm that was chosen, with what the channel, the transport or the
-- future gave. `none` stands for a closed channel or the end of the transport.
use zzrpc.Prelude.{
  ℕ, Bool, true, false, not, ◌&&◌, Option, none, some, List, [], ◌∷◌, ◌++◌, if◌then◌else◌,
  get_elem?,
}
use zzrpc.Rpc.{ShutdownType, HandlingStrategy, stop, ignore, TransportError, ReceiveErrorCallback}
use zzrpc.Message.{Request, ResultSender, Message}
use zzrpc.Consumer.State.{
  Effect, reset_timeout, send_message, drop_sender, drop_values, State, put_change,
}
use zzrpc.Consumer.Handle.{handle_message, idle, shutdown, drop_slots}
use zzrpc.Consumer.Take.{Flow, continue_, break_, panic, request_slot}

pub data Received (T E : Type 0) : Type 0 where
  ok : Message T → Received T E
  err : E → Received T E

-- A request taken from the channel of its method, with the error of `sender.send(message).await`.
pub record Taken (R E : Type 0) : Type 0 where
  pub message : Request R
  pub result_sender : ResultSender
  pub failure : Option (TransportError E)

pub data Event (R T E : Type 0) : Type 0 where
  received : Option (Received T E) → Event R T E
  requested : (k : ℕ) → Option (Taken R E) → Event R T E
  timed_out : Event R T E
  shut_down : ShutdownType → Event R T E
  consumer_dropped : Event R T E

-- The state of the loop after a round, with the state of the callback.
pub record Round (R T E S : Type 0) : Type 0 where
  pub state : State
  pub callback : S
  pub effects : List (Effect R T E)
  pub flow : Flow

-- The end of a run: the state, unless the loop was left and the state dropped, and the events that
-- came too late to be read.
pub record Outcome (R T E : Type 0) : Type 0 where
  pub left : Option State
  pub effects : List (Effect R T E)
  pub flow : Flow
  pub rest : List (Event R T E)

-- The parts of `Configuration` that the rounds read: whether there is a timeout, and the callback.
pub record Settings (E S : Type 0) : Type 0 where
  pub has_timeout : Bool
  pub on_receive_error : ReceiveErrorCallback S E

module _ {R T E : Type 0} where
  abbrev pub reset_if : Bool → List (Effect R T E)
  reset_if true = reset_timeout ∷ []
  reset_if false = []

  abbrev pub drop_result_sender : ResultSender → List (Effect R T E)
  drop_result_sender (ResultSender.value sender) = drop_sender sender ∷ []
  drop_result_sender (ResultSender.stream sender items) =
      drop_sender sender ∷ drop_values items ∷ []
  drop_result_sender ResultSender.abort = []

  module _ {S : Type 0} where
    -- `state.shutdown(shutdown_type); break`
    unfoldable pub stop_with : S → List (Effect R T E) → State → ShutdownType → Round R T E S
    unfolding shutdown
    stop_with cb effects s cause =
        let (s', drained) = shutdown s cause in
        record { state = s'; callback = cb; effects = effects ++ drained; flow = break_ }

    unfoldable pub after_message :
        S → List (Effect R T E) → State × List (Effect R T E) × Option ShutdownType → Round R T E S
    unfolding stop_with
    after_message cb effects (s, more, none) = record {
      state = s;
      callback = cb;
      effects = effects ++ more;
      flow = continue_;
    }
    after_message cb effects (s, more, some cause) = stop_with cb (effects ++ more) s cause

    unfoldable pub after_error : List (Effect R T E) → State → HandlingStrategy × S → Round R T E S
    unfolding stop_with
    after_error effects s (stop cause, cb) = stop_with cb effects s cause
    after_error effects s (ignore, cb) = record {
      state = s;
      callback = cb;
      effects = effects;
      flow = continue_;
    }

    unfoldable pub receive : Settings E S → S → State → Option (Received T E) → Round R T E S
    unfolding after_message after_error stop_with
    receive c cb s none = stop_with cb [] s ShutdownType.closed
    receive c cb s (some (Received.ok message)) =
        after_message cb (reset_if c.has_timeout) (handle_message s message)
    receive c cb s (some (Received.err e)) =
        after_error (reset_if c.has_timeout) s (c.on_receive_error cb e)

    -- The slot of the method takes the request; in Rust every channel belongs to a method.
    unfoldable pub take_request : S → List (Effect R T E) → State → ℕ → Taken R E → Round R T E S
    unfolding put_change
    take_request cb effects s k taken = elim (get_elem? s.slots k) [
      | none ↦ record {
        state = s;
        callback = cb;
        effects = effects ++ drop_result_sender taken.result_sender;
        flow = panic;
      }
      | some slot ↦
          let (change, flow) =
            request_slot s.pending slot taken.message.id taken.result_sender taken.failure in
          let (s', more) = put_change s k change in
          record { state = s'; callback = cb; effects = effects ++ more; flow = flow }
    ]

    -- One round of the loop.
    unfoldable pub step : Settings E S → S → State → Event R T E → Round R T E S
    unfolding receive take_request stop_with
    step c cb s (received option) = receive c cb s option
    step c cb s (requested k none) = record {
      state = s;
      callback = cb;
      effects = [];
      flow = continue_;
    }
    step c cb s (requested k (some taken)) =
        take_request cb (reset_if c.has_timeout ++ send_message taken.message ∷ []) s k taken
    step c cb s timed_out =
        if c.has_timeout && not (idle s)
        then stop_with cb [] s ShutdownType.timeout
        else record { state = s; callback = cb; effects = []; flow = continue_ }
    step c cb s (shut_down cause) = stop_with cb [] s cause
    step c cb s consumer_dropped = record { state = s; callback = cb; effects = []; flow = break_ }

    -- What follows a round: the rest of the loop if the round goes on; otherwise the loop is left
    -- and the state is dropped.
    unfoldable pub conclude :
        Flow → Round R T E S → List (Event R T E) → Outcome R T E → Outcome R T E
    conclude continue_ round events later = record later {
      effects = round.effects ++ later.effects;
    }
    conclude flow round events later = record {
      left = none;
      effects = round.effects ++ drop_slots round.state.slots;
      flow = flow;
      rest = events;
    }

    -- The loop over the events of its rounds.
    unfoldable pub run : Settings E S → S → State → List (Event R T E) → Outcome R T E
    unfolding conclude
    run c cb s [] = record { left = some s; effects = []; flow = continue_; rest = [] }
    run c cb s (event ∷ events) =
        let round = step c cb s event in
        conclude round.flow round events (run c round.callback round.state events)
