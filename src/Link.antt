-- ===== src/Link.antt =====
-- The generated producer and the generated consumer together, over a reliable transport that keeps
-- the order.
use zzrpc.Prelude.{
  ℕ, ◌<◌, ◌≡◌, ◌↔◌, true, false, refl, none, some, List, [], ◌∷◌, ◌++◌, get_elem?, usize_mod, total,
}
use zzrpc.Prelude.Table.{Table, lookup}
use zzrpc.Rpc.{ShutdownType}
use zzrpc.Message.{Request, Result, Message}
use zzrpc.Consumer.State.{
  send_message, send_result, send_open, drop_values, Entry, values, streams, State,
}
use zzrpc.Consumer.Take.{break_}
use zzrpc.Consumer.Loop
use zzrpc.Consumer.Loop.{Event, received, Settings, reset_if, run, step}
use zzrpc.Consumer.Config
use zzrpc.Consumer.Answers.{message_event, preceded, value_request, request_answered}
use zzrpc.Consumer.Streams.{stream_request, with_items, item_events, stream_served}
use zzrpc.Consumer.Mass.{mass, spent}
use zzrpc.Consumer.Shutdown.{Fails, ended, told_aborted, told_shutdown, stop-Fails_all}
use zzrpc.Producer.Requests
use zzrpc.Producer.Task.{
  TaskEffect, reply, remove_aborter, ValueEvent, StreamEvent, value_task, stream_loop, stream_task,
}
use zzrpc.Producer.Loop as Main
use zzrpc.Producer.Loop.{farewell}
use zzrpc.Producer.Config as Produced

-- The replies of a task, as the consumer receives them, before other events.
abbrev pub delivered :
    {R T E : Type 0} → List (TaskEffect T) → List (Event R T E) → List (Event R T E)
delivered [] events = events
delivered (reply m ∷ effects) events = message_event m ∷ delivered effects events
delivered (remove_aborter id ∷ effects) events = delivered effects events

-- What the stream of a method gives: the items, and its end.
abbrev pub given : {T : Type 0} → List T → List (StreamEvent T)
given [] = StreamEvent.next none ∷ []
given (x ∷ xs) = StreamEvent.next (some x) ∷ given xs

delivered-items :
    {R T E : Type 0} (id k : ℕ) (xs : List T) (events : List (Event R T E))
    → delivered (stream_loop id k (given xs)).0 events ≡ item_events id k xs events
unfolding stream_loop
delivered-items id k [] events = refl
delivered-items id k (x ∷ xs) events = rw (delivered-items id k xs events)

-- A stream call from end to end: the task of the producer for a stream that gives `xs` and ends
-- makes the consumer open the stream, pass on exactly `xs` in order, and end it. The loop of the
-- consumer is then where it was before the request.
pub stream_end_to_end :
    {R T E S : Type 0} (c : Settings E S) (cb : S) (s : State) (k : ℕ) (t : Table Entry)
    (m : Request R) (sender items : ℕ) (xs : List T) (events : List (Event R T E))
    → get_elem? s.slots k ≡ some (streams t)
    → lookup m.id t ≡ none
    → s.pending < usize_mod
    → run c cb s
        (stream_request k m sender items ∷ delivered (stream_task m.id k (given xs)).0 events)
      ≡ preceded (reset_if c.has_timeout ++ send_message m ∷ []) (
          preceded (reset_if c.has_timeout ++ send_open sender (Result.ok tt) ∷ []) (
            with_items c cb items xs
              (preceded (reset_if c.has_timeout ++ drop_values items ∷ []) (run c cb s events))))
unfolding stream_task
stream_end_to_end c cb s k t m sender items xs events found fresh small =
    rw (delivered-items m.id k xs events)
      (stream_served c cb s k t m sender items xs events found fresh small)

-- A value call from end to end: the result of the method reaches the sender of the request.
pub value_end_to_end :
    {R T E S : Type 0} (c : Settings E S) (cb : S) (s : State) (k : ℕ) (t : Table ℕ) (m : Request R)
    (sender : ℕ) (x : T) (events : List (Event R T E))
    → get_elem? s.slots k ≡ some (values t)
    → lookup m.id t ≡ none
    → s.pending < usize_mod
    → run c cb s
        (value_request k m sender ∷ delivered (value_task m.id k (ValueEvent.finished x)) events)
      ≡ preceded (reset_if c.has_timeout ++ send_message m ∷ []) (
          preceded
            (reset_if c.has_timeout ++ send_result sender (Result.ok x) ∷ [])
            (run c cb s events))
unfolding value_task
value_end_to_end c cb s k t m sender x events found fresh small =
    request_answered c cb s k t m sender x events found fresh small

-- What the consumer reads next from a producer that returns and has said `ms` at last: its message,
-- or else the end of the transport.
abbrev pub next_event : {R T E : Type 0} → List (Message T) → Event R T E
next_event [] = received none
next_event (m ∷ ms) = message_event m

-- What the consumer takes the return value for.
abbrev pub seen : ShutdownType → ShutdownType
seen ShutdownType.timeout = ShutdownType.closed
seen cause = cause

-- The round leaves the loop, every request is answered by the error of the cause, and every sender
-- is used up.
abbrev pub FailsAll : {R T E S : Type 0} → State → ShutdownType → Loop.Round R T E S → Type 0
FailsAll s cause r =
    (r.flow ≡ break_)
    × Fails cause r.effects
    × ((u v : ℕ → ℕ) → (total (spent u v) r.effects ≡ mass u v s) × (mass u v r.state ≡ 0))

farewell-FailsAll :
    {E S : Type 0} (R T : Type 0) (c : Settings E S) (cb : S) (s : State) (cause : ShutdownType)
    → FailsAll s (seen cause) (
        step {R = R} {T = T} c cb s
          (next_event (Requests.replies {R = R} {T = T} (Main.reply_option (farewell cause)))))
unfolding farewell
farewell-FailsAll R T c cb s ShutdownType.closed = stop-Fails_all ended
farewell-FailsAll R T c cb s ShutdownType.shutdown = stop-Fails_all told_shutdown
farewell-FailsAll R T c cb s ShutdownType.aborted = stop-Fails_all told_aborted
farewell-FailsAll R T c cb s ShutdownType.timeout = stop-Fails_all ended

-- When a round of the main task of the producer returns, what the consumer reads next of it, the
-- message that the round sends or else the end of the transport, makes the consumer leave its loop.
-- Every request in flight is then answered with the error of the returned shutdown type, except
-- that a timeout of the producer looks like a closed connection.
pub producer_end_seen :
    {R E F S P : Type 0} (T : Type 0) (c : Settings E S) (cb : S) (s : State)
    (d : Main.Settings F P) (its_cb : P) (p : Main.State) (event : Main.Event R F)
    → let round = Main.step {T = T} d its_cb p event in
      round.goes_on ≡ false
      → FailsAll s
          (seen round.state.return_value)
          (step {R = R} {T = T} c cb s (next_event (Requests.replies round.effects)))
producer_end_seen {R} {F} {P} T c cb s d its_cb p event e =
    let (started, on, off) = Requests.step-Tells R T F P d its_cb p event in
    rw (off e)
      (farewell-FailsAll R T c cb s (Main.step {T = T} d its_cb p event).state.return_value)

-- With the default configurations, whose shutdown futures never resolve and which have no timeout:
-- the loop of the consumer is left by a `break` exactly when the transport ends, the producer says
-- that it stops, or the consumer is dropped; and the main task of the producer stops exactly when
-- the transport ends or the callback for send errors asked for it. No receive error stops either.
pub default-ends :
    {R E : Type 0} (T : Type 0) (s : State) (event : Event R T E) (p : Main.State)
    (event' : Main.Event R E)
    → Config.occurs {E = E} Config.default event ≡ true
    → Produced.occurs {E = E} Produced.default event' ≡ true
    → (((step (Config.settings Config.default) tt s event).flow ≡ break_)
        ↔ (Config.ends event ≡ true))
      × (((Main.step {T = T} (Produced.settings Produced.default) tt p event').goes_on ≡ false)
          ↔ (Produced.ends event' ≡ true))
default-ends T s event p event' o o' =
    (Config.default_breaks s event o, Produced.default_returns T p event' o')
