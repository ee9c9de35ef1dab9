-- ===== src/Tests/Consumer.antt =====
-- The consumer of an api with two methods: a value method and a stream method.
use zzrpc.Prelude.{
  subst, ◌↔◌, ℕ, ◌+◌, ◌≡◌, ◌≢◌, refl, inl, none, some, Bool, true, false, List, [], ◌∷◌, arith, one,
  total,
}
use zzrpc.Prelude.Table.{lookup, insert, remove, weigh}
use zzrpc.Rpc.{
  Error, ShutdownType, from_shutdown, ignore, default_on_receive_error, from_transport_error,
}
use zzrpc.Message.{Request, Payload, Result, ResultSender, Response, StreamResponse, Message}
use zzrpc.Consumer.State.{
  send_message, send_result, send_open, send_item, drop_sender, drop_values, values, streams, State,
  new, put_change,
}
use zzrpc.Consumer.Handle.{handle_message, shutdown, idle, respond, respond_slot, drop_slots}
use zzrpc.Consumer.Take.{break_, panic, request_slot}
use zzrpc.Consumer.Loop.{
  Event, Received, consumer_dropped, received, timed_out, shut_down, Settings, run, step,
  take_request,
}
use zzrpc.Consumer.Mass.{mass, spent}
use zzrpc.Consumer.Conservation.{exactly_once}
use zzrpc.Consumer.Pending.{Reach, start, later, Reach-idle, outstanding, RequestFits}
use zzrpc.Consumer.Config
use zzrpc.Producer.Config as Produced
use zzrpc.Producer.Loop as Main
use zzrpc.Producer.Requests
use zzrpc.Consumer.Dropped.{Consumer, drop, Drops, dropped-Drops}
use zzrpc.Consumer.Leak.{respond-leaks}
use zzrpc.Consumer.Routing.{respond-frame, value_at, stream_at}
use zzrpc.Consumer.Unused.{run-Unused}
use zzrpc.Consumer.Answers.{message_event, value_request, preceded, goes}
use zzrpc.Consumer.Streams.{stream_request}
use zzrpc.Consumer.Shutdown.{asked, Fails, stop-Fails_all}
use zzrpc.Consumer.Expiry.{expiry-in_flight}
use zzrpc.Link.{
  delivered, given, stream_end_to_end, value_end_to_end, producer_end_seen, default-ends,
  next_event, FailsAll,
}
use zzrpc.Producer.Task.{value_task, stream_task, stream_loop, ValueEvent}

program : Unit {0}
unfolding run step take_request put_change respond handle_message shutdown idle drop_slots new
    lookup insert remove default_on_receive_error from_shutdown from_transport_error respond_slot
    request_slot stream_task stream_loop value_task
program = tt

abbrev quiet : Settings ℕ (Unit {0})
quiet = record { has_timeout = false; on_receive_error = λ s e. (ignore, s) }

abbrev timed : Settings ℕ (Unit {0})
timed = record { has_timeout = true; on_receive_error = λ s e. (ignore, s) }

abbrev kinds : List Bool
kinds = false ∷ true ∷ []

abbrev ask : ℕ → Request ℕ
ask id = record { id = id; payload = Payload.request 7 }

abbrev call_value : Event ℕ ℕ ℕ
call_value = value_request 0 (ask 0) 10

abbrev call_stream : Event ℕ ℕ ℕ
call_stream = stream_request 1 (ask 1) 11 12

abbrev answer_value : Event ℕ ℕ ℕ
answer_value = message_event (Message.response 0 (Response.value 0 42))

-- A request and a stream request; the first is answered, and the producer shuts down.
abbrev history : List (Event ℕ ℕ ℕ)
history = call_value ∷ call_stream ∷ answer_value ∷ message_event Message.shutdown ∷ timed_out ∷ []

history_effects :
    (run quiet tt (new kinds) history).effects
    ≡ send_message (ask 0)
      ∷ send_message (ask 1)
      ∷ send_result 10 (Result.ok 42)
      ∷ send_open 11 (Result.err Error.shutdown)
      ∷ drop_values 12
      ∷ []
unfolding program
history_effects = refl

wrong_kind : (step {T = ℕ} quiet tt (new kinds) (value_request 1 (ask 0) 10)).flow ≡ panic
unfolding program
wrong_kind = refl

exactly_once_example :
    (total (spent (one 11) (λ _. 0)) (run quiet tt (new kinds) history).effects + 0 ≡ 1)
    × (total (spent (λ _. 0) (one 11)) (run quiet tt (new kinds) history).effects + 0 ≡ 0)
unfolding program
exactly_once_example = exactly_once quiet tt kinds history 11 (λ e. cc)

abbrev two_waiting : State
two_waiting = record {
  pending = 2;
  slots = values ((0, 10) ∷ []) ∷ streams ((1, record { result = some 11; items = 12 }) ∷ []) ∷ [];
}

abbrev serving : State
serving = record {
  pending = 0;
  slots = values [] ∷ streams ((1, record { result = none; items = 12 }) ∷ []) ∷ [];
}

some_eq : {A : Type 0} {a b : A} → some a ≡ some b → a ≡ b
some_eq e = cc

two_waiting-Reach : Reach ℕ ℕ timed tt kinds tt two_waiting
unfolding program
two_waiting-Reach =
    later call_stream
      (later call_value start
        (λ slot e. subst (λ x. RequestFits x 0 (ResultSender.value 10)) (some_eq e) refl) refl)
      (λ slot e. subst (λ x. RequestFits x 1 (ResultSender.stream 11 12)) (some_eq e) refl) refl

Reach-idle_example :
    (two_waiting.pending ≡ outstanding two_waiting)
    × ((idle two_waiting ≡ true) ↔ (outstanding two_waiting ≡ 0))
unfolding weigh
Reach-idle_example = Reach-idle two_waiting-Reach (omega arith)

expiry-in_flight_example :
    let r = step {R = ℕ} {T = ℕ} timed tt two_waiting timed_out in
    (outstanding two_waiting ≢ 0
      → (r.flow ≡ break_)
        × Fails ShutdownType.timeout r.effects
        × ((u v : ℕ → ℕ)
            → (total (spent u v) r.effects ≡ mass u v two_waiting) × (mass u v r.state ≡ 0)))
    × (outstanding two_waiting ≡ 0 → r ≡ goes tt two_waiting [])
unfolding weigh
expiry-in_flight_example = expiry-in_flight two_waiting-Reach (omega arith) refl

stop-Fails_all_example :
    let r = step {R = ℕ} {T = ℕ} quiet tt two_waiting (shut_down ShutdownType.aborted) in
    (r.flow ≡ break_)
    × Fails ShutdownType.aborted r.effects
    × ((u v : ℕ → ℕ)
        → (total (spent u v) r.effects ≡ mass u v two_waiting) × (mass u v r.state ≡ 0))
stop-Fails_all_example = stop-Fails_all asked

respond-frame_example :
    let s' = (respond {R = ℕ} {T = ℕ} {E = ℕ} two_waiting 0 (Response.value 0 42)).0 in
    (value_at s' 1 1 ≡ value_at two_waiting 1 1) × (stream_at s' 1 1 ≡ stream_at two_waiting 1 1)
respond-frame_example = respond-frame ℕ ℕ ℕ two_waiting 0 (Response.value 0 42) 1 1 (inl refl)

value_end_to_end_example :
    run quiet tt (new kinds) (call_value ∷ delivered (value_task 0 0 (ValueEvent.finished 42)) [])
    ≡ preceded
        (send_message (ask 0) ∷ [])
        (preceded (send_result 10 (Result.ok 42) ∷ []) (run quiet tt (new kinds) []))
unfolding program
value_end_to_end_example =
    value_end_to_end quiet tt (new kinds) 0 [] (ask 0) 10 42 [] refl refl (omega arith)

stream_end_to_end_example :
    run quiet tt (new kinds) (call_stream ∷ delivered (stream_task 1 1 (given (5 ∷ 6 ∷ []))).0 [])
    ≡ preceded (send_message (ask 1) ∷ []) (
        preceded (send_open 11 (Result.ok tt) ∷ []) (
          preceded (send_item 12 5 ∷ []) (
            preceded
              (send_item 12 6 ∷ [])
              (preceded (drop_values 12 ∷ []) (run quiet tt (new kinds) [])))))
unfolding program
stream_end_to_end_example =
    stream_end_to_end quiet tt (new kinds) 1 [] (ask 1) 11 12 (5 ∷ 6 ∷ []) [] refl refl
      (omega arith)

abbrev never : Main.Settings ℕ (Unit {0})
never = record { has_timeout = false; on_receive_error = λ s e. (ignore, s) }

-- The producer is asked to abort.
producer_end_seen_example : FailsAll two_waiting ShutdownType.aborted (
    step {R = ℕ} {T = ℕ} quiet tt two_waiting (
      next_event (
        Requests.replies
          (Main.step {R = ℕ} {T = ℕ} {E = ℕ} never tt Main.start
            (Main.shut_down ShutdownType.aborted)).effects)))
unfolding Main.step
producer_end_seen_example =
    producer_end_seen ℕ quiet tt two_waiting never tt Main.start
      (Main.shut_down ShutdownType.aborted) refl

run-Unused_example :
    ((i : ℕ) → (value_at two_waiting i 5 ≡ none) × (stream_at two_waiting i 5 ≡ none))
    × ((r : Response ℕ) → respond {R = ℕ} {T = ℕ} {E = ℕ} two_waiting 5 r ≡ (two_waiting, []))
unfolding program
run-Unused_example =
    run-Unused quiet tt kinds (call_value ∷ call_stream ∷ []) two_waiting 5 refl refl

-- A stream request whose `Open` got lost.
abbrev waiting : State
waiting = record {
  pending = 1;
  slots = values [] ∷ streams ((1, record { result = some 11; items = 12 }) ∷ []) ∷ [];
}

respond-leaks_example :
    let (s', effects) =
      respond {R = ℕ} {T = ℕ} {E = ℕ} waiting 1 (Response.stream 1 StreamResponse.closed) in
    (effects ≡ drop_sender 11 ∷ drop_values 12 ∷ [])
    × (outstanding s' + 1 ≡ 1)
    × (s'.pending ≡ outstanding s' + 1)
    × (idle s' ≡ false)
unfolding lookup weigh
respond-leaks_example =
    respond-leaks ℕ ℕ ℕ waiting 1 1 11 12 ((1, record { result = some 11; items = 12 }) ∷ []) refl
      refl refl

dropped-Drops_example :
    let o = run {R = ℕ} {T = ℕ} quiet tt waiting (consumer_dropped ∷ timed_out ∷ []) in
    (o.flow ≡ break_)
    × (o.left ≡ none)
    × (o.rest ≡ timed_out ∷ [])
    × Drops o.effects
    × (total (spent (one 11) (λ x. 0)) o.effects ≡ 1)
unfolding weigh
dropped-Drops_example = dropped-Drops quiet tt waiting (timed_out ∷ []) (one 11) (λ x. 0)

-- The drop of the handle sends on the drop channel, a second time nothing.
abbrev its_handle : Consumer ℕ (List ℕ)
its_handle = record { id_counter = 2; senders = 0 ∷ 1 ∷ []; drop_sender = some 4 }

drop_once : ((drop its_handle).1 ≡ 4 ∷ []) × ((drop (drop its_handle).0).1 ≡ [])
unfolding drop
drop_once = (refl, refl)

default-ends_example :
    let failed : Event ℕ ℕ ℕ = received (some (Received.err 3)) in
    let told : Main.Event ℕ ℕ = Main.stopped (some ShutdownType.closed) in
    (((step (Config.settings Config.default) tt waiting failed).flow ≡ break_) ↔ (false ≡ true))
    × (((Main.step {T = ℕ} (Produced.settings Produced.default) tt Main.start told).goes_on ≡ false)
        ↔ (true ≡ true))
default-ends_example =
    default-ends ℕ waiting (received (some (Received.err 3))) Main.start
      (Main.stopped (some ShutdownType.closed)) refl refl
