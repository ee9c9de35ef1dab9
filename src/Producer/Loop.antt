-- ===== src/Producer/Loop.antt =====
-- zzrpc-derive/src/lib.rs, `impl_produce`: the main task of the producer. A round of its `select!`
-- is an event, the arm that was chosen; `none` stands for the end of the transport or a closed
-- channel.
use zzrpc.Prelude.{ℕ, Bool, true, false, Option, none, some, List, [], ◌∷◌, ◌++◌}
use zzrpc.Prelude.Table.{Table, lookup, insert, remove}
use zzrpc.Rpc.{ShutdownType, HandlingStrategy, stop, ignore, ReceiveErrorCallback}
use zzrpc.Message.{Request, Payload, Message}

pub data Effect (R T : Type 0) : Type 0 where
  reset_timeout : Effect R T
  -- a task for the request, with the receiver of the abort channel
  spawn : (id : ℕ) → R → (abort_receiver : ℕ) → Effect R T
  send_abort : (sender : ℕ) → Effect R T  -- `abort_sender.send(())`
  drop_aborter : (sender : ℕ) → Effect R T  -- an abort sender is dropped unused
  reply : Message T → Effect R T  -- `reply_sender.unbounded_send`

pub record State : Type 0 where
  pub aborters : Table ℕ
  pub return_value : ShutdownType

abbrev pub start : State
start = record { aborters = []; return_value = ShutdownType.closed }

-- A message with the number of the channel that `oneshot::channel()` gives, if it is a request.
pub data Received (R E : Type 0) : Type 0 where
  ok : Request R → (channel : ℕ) → Received R E
  err : E → Received R E

pub data Event (R E : Type 0) : Type 0 where
  received : Option (Received R E) → Event R E
  removed : Option ℕ → Event R E  -- an id from `remove_aborter_receiver`
  timed_out : Event R E
  stopped : Option ShutdownType → Event R E  -- from `stop_receiver`; `none` is `Canceled`
  shut_down : ShutdownType → Event R E

pub record Round (R T S : Type 0) : Type 0 where
  pub state : State
  pub callback : S
  pub effects : List (Effect R T)
  pub goes_on : Bool

pub record Settings (E S : Type 0) : Type 0 where
  pub has_timeout : Bool
  pub on_receive_error : ReceiveErrorCallback S E

-- The message of `handle_shutdown`, if there is one.
unfoldable pub farewell : {T : Type 0} → ShutdownType → Option (Message T)
farewell ShutdownType.shutdown = some Message.shutdown
farewell ShutdownType.aborted = some Message.aborted
farewell ShutdownType.closed = none
farewell ShutdownType.timeout = none

module _ {R T : Type 0} where
  abbrev pub drop_option : Option ℕ → List (Effect R T)
  drop_option none = []
  drop_option (some sender) = drop_aborter sender ∷ []

  abbrev pub abort_option : Option ℕ → List (Effect R T)
  abort_option none = []
  abort_option (some sender) = send_abort sender ∷ []

  abbrev pub reset_if : Bool → List (Effect R T)
  reset_if true = reset_timeout ∷ []
  reset_if false = []

  -- `handle_message`
  unfoldable pub handle_message : Table ℕ → Request R → ℕ → Table ℕ × List (Effect R T)
  handle_message aborters message channel = elim message.payload [
    | Payload.request request ↦ (
      insert message.id channel aborters,
      drop_option (lookup message.id aborters) ++ spawn message.id request channel ∷ [],
    )
    | Payload.abort ↦ (remove message.id aborters, abort_option (lookup message.id aborters))
  ]

  abbrev pub reply_option : Option (Message T) → List (Effect R T)
  reply_option none = []
  reply_option (some message) = reply message ∷ []

  module _ {S : Type 0} where
    -- `handle_shutdown(shutdown_type); break`
    unfoldable pub stop_with : S → List (Effect R T) → State → ShutdownType → Round R T S
    unfolding farewell
    stop_with cb effects s cause = record {
      state = record s { return_value = cause };
      callback = cb;
      effects = effects ++ reply_option (farewell cause);
      goes_on = false;
    }

    abbrev pub go_on : S → List (Effect R T) → State → Round R T S
    go_on cb effects s = record { state = s; callback = cb; effects = effects; goes_on = true }

    unfoldable pub after_error : List (Effect R T) → State → HandlingStrategy × S → Round R T S
    unfolding stop_with
    after_error effects s (stop cause, cb) = stop_with cb effects s cause
    after_error effects s (ignore, cb) = go_on cb effects s

    unfoldable pub receive :
        {E : Type 0} → Settings E S → S → State → Option (Received R E) → Round R T S
    unfolding after_error stop_with handle_message
    receive c cb s none = stop_with cb (reset_if c.has_timeout) s ShutdownType.closed
    receive c cb s (some (Received.ok message channel)) =
        let (aborters, effects) = handle_message s.aborters message channel in
        go_on cb (reset_if c.has_timeout ++ effects) (record s { aborters = aborters })
    receive c cb s (some (Received.err e)) =
        after_error (reset_if c.has_timeout) s (c.on_receive_error cb e)

    -- The sleep is over, and there is a timeout: stop if no request is in flight.
    unfoldable pub expire : S → State → Table ℕ → Round R T S
    unfolding stop_with
    expire cb s [] = stop_with cb [] s ShutdownType.timeout
    expire cb s (entry ∷ aborters) = go_on cb (reset_timeout ∷ []) s

    unfoldable pub time_out : Bool → S → State → Round R T S
    unfolding expire
    time_out true cb s = expire cb s s.aborters
    time_out false cb s = go_on cb [] s

    -- One round of the loop.
    unfoldable pub step : {E : Type 0} → Settings E S → S → State → Event R E → Round R T S
    unfolding receive time_out stop_with
    step c cb s (received option) = receive c cb s option
    step c cb s (removed none) = go_on cb [] s
    step c cb s (removed (some id)) =
        go_on cb (drop_option (lookup id s.aborters)) (record s { aborters = remove id s.aborters })
    step c cb s timed_out = time_out c.has_timeout cb s
    step c cb s (stopped none) = go_on cb [] s
    step c cb s (stopped (some cause)) = stop_with cb [] s cause
    step c cb s (shut_down cause) = stop_with cb [] s cause

-- The end of a run: the value that the task returns, once it has left the loop, or the state; and
-- the events that came too late.
pub data Ending : Type 0 where
  returned : ShutdownType → Ending
  running : State → Ending

pub record Outcome (R T E : Type 0) : Type 0 where
  pub ending : Ending
  pub effects : List (Effect R T)
  pub rest : List (Event R E)

-- `for (_, aborter) in aborters.drain()`
unfoldable pub drain : {R T : Type 0} → Table ℕ → List (Effect R T)
drain [] = []
drain ((id, sender) ∷ aborters) = send_abort sender ∷ drain aborters

module _ {R T E S : Type 0} where
  unfoldable pub conclude : Bool → Round R T S → List (Event R E) → Outcome R T E → Outcome R T E
  unfolding drain
  conclude true round events later = record later { effects = round.effects ++ later.effects }
  conclude false round events later = record {
    ending = returned round.state.return_value;
    effects = round.effects ++ drain round.state.aborters;
    rest = events;
  }

  -- The loop over the events of its rounds.
  unfoldable pub run : Settings E S → S → State → List (Event R E) → Outcome R T E
  unfolding conclude
  run c cb s [] = record { ending = running s; effects = []; rest = [] }
  run c cb s (event ∷ events) =
      let round = step c cb s event in
      conclude round.goes_on round events (run c round.callback round.state events)
