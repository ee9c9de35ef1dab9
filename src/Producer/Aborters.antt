-- ===== src/Producer/Aborters.antt =====
-- What becomes of the abort senders and of the requests that the main task of the producer reads.
use zzrpc.Prelude.{
  ℕ, ◌+◌, ◌≡◌, refl, Option, none, some, Bool, true, false, List, [], ◌∷◌, arith, total,
  total-append,
}
use zzrpc.Prelude.Table.{Table, weigh, weigh-insert, weigh-remove}
use zzrpc.Rpc.{ShutdownType, HandlingStrategy, stop, ignore}
use zzrpc.Message.{Payload, Message}
use zzrpc.Producer.Loop.{
  Effect, reset_timeout, spawn, send_abort, drop_aborter, reply, State, Received, Event, received,
  removed, timed_out, stopped, shut_down, Round, Settings, reset_if, handle_message, farewell,
  reply_option, stop_with, after_error, expire, time_out, step, Ending, returned, running, Outcome,
  drain, conclude, run,
}

module _ (w : ℕ → ℕ) {R T : Type 0} where
  -- The weight of the abort senders that an effect uses up.
  abbrev pub spent : Effect R T → ℕ
  spent reset_timeout = 0
  spent (spawn id r ch) = 0
  spent (send_abort sender) = w sender
  spent (drop_aborter sender) = w sender
  spent (reply m) = 0

abbrev pub brought_payload : (ℕ → ℕ) → {R : Type 0} → Payload R → ℕ → ℕ
brought_payload w (Payload.request r) ch = w ch
brought_payload w Payload.abort ch = 0

module _ (w : ℕ → ℕ) {R E : Type 0} where
  -- The weight of the abort channel that an event makes.
  abbrev pub brought : Event R E → ℕ
  brought (received (some (Received.ok m ch))) = brought_payload w m.payload ch
  brought _ = 0

abbrev pub held : (ℕ → ℕ) → Ending → ℕ
held w (returned t) = 0
held w (running s) = weigh w s.aborters

module _ (w : ℕ → ℕ) (R T E S : Type 0) where
  abbrev spent_all : List (Effect R T) → ℕ
  spent_all = total (spent w)

  abbrev Fair : State → ℕ → Round R T S → Type 0
  Fair s came r = weigh w r.state.aborters + spent_all r.effects ≡ weigh w s.aborters + came

  handle_message-fair :
      (t : Table ℕ) (id : ℕ) (p : Payload R) (ch : ℕ)
      → let (t', effects) = handle_message t (record { id = id; payload = p }) ch in
        weigh w t' + spent_all effects ≡ weigh w t + brought_payload w p ch
  unfolding handle_message
  handle_message-fair t id (Payload.request r) ch = ground (arith, weigh-insert w id ch t)
  handle_message-fair t id Payload.abort ch = ground (arith, weigh-remove w id t)

  reset_if-free : (b : Bool) → spent_all (reset_if b) ≡ 0
  reset_if-free true = refl
  reset_if-free false = refl

  farewell-free : (o : Option (Message T)) → spent_all (reply_option o) ≡ 0
  farewell-free none = refl
  farewell-free (some m) = refl

  stop_with-Fair :
      (cb : S) (effects : List (Effect R T)) (s : State) (cause : ShutdownType)
      → spent_all effects ≡ 0
      → Fair s 0 (stop_with cb effects s cause)
  unfolding stop_with
  stop_with-Fair cb effects s cause h = omega (
    arith,
    total-append (spent w) effects (reply_option (farewell cause)),
    farewell-free (farewell cause),
  )

  after_error-Fair :
      (effects : List (Effect R T)) (s : State) (answer : HandlingStrategy × S)
      → spent_all effects ≡ 0
      → Fair s 0 (after_error effects s answer)
  unfolding after_error
  after_error-Fair effects s (stop cause, cb) h = stop_with-Fair cb effects s cause h
  after_error-Fair effects s (ignore, cb) h = omega arith

  expire-Fair : (cb : S) (s : State) (t : Table ℕ) → Fair s 0 (expire cb s t)
  unfolding expire
  expire-Fair cb s [] = stop_with-Fair cb [] s ShutdownType.timeout refl
  expire-Fair cb s (e ∷ t) = omega arith

  time_out-Fair : (b : Bool) (cb : S) (s : State) → Fair s 0 (time_out b cb s)
  unfolding time_out
  time_out-Fair true cb s = expire-Fair cb s s.aborters
  time_out-Fair false cb s = omega arith

  step-Fair :
      (c : Settings E S) (cb : S) (s : State) (event : Event R E)
      → Fair s (brought w event) (step c cb s event)
  unfolding step
  step-Fair c cb s (received none) =
      stop_with-Fair cb _ s ShutdownType.closed (reset_if-free c.has_timeout)
  step-Fair c cb s (received (some (Received.err e))) =
      after_error-Fair _ s (c.on_receive_error cb e) (reset_if-free c.has_timeout)
  step-Fair c cb s (received (some (Received.ok m ch))) = omega (
    arith,
    total-append (spent w) (reset_if c.has_timeout) (handle_message s.aborters m ch).1,
    reset_if-free c.has_timeout,
    handle_message-fair s.aborters m.id m.payload ch,
  )
  step-Fair c cb s (removed none) = omega arith
  step-Fair c cb s (removed (some id)) = ground (arith, weigh-remove w id s.aborters)
  step-Fair c cb s timed_out = time_out-Fair c.has_timeout cb s
  step-Fair c cb s (stopped none) = omega arith
  step-Fair c cb s (stopped (some cause)) = stop_with-Fair cb [] s cause refl
  step-Fair c cb s (shut_down cause) = stop_with-Fair cb [] s cause refl

  drain-spent : (t : Table ℕ) → spent_all (drain t) ≡ weigh w t
  unfolding drain weigh
  drain-spent [] = refl
  drain-spent ((id, s) ∷ t) = omega (arith, drain-spent t)

  abbrev Conserves : Outcome R T E → ℕ → Type 0
  Conserves o came = held w o.ending + spent_all o.effects + total (brought w) o.rest ≡ came

  conclude-Conserves :
      (b : Bool) (round : Round R T S) (events : List (Event R E)) (later : Outcome R T E)
      → Conserves later (weigh w round.state.aborters + total (brought w) events)
      → Conserves
          (conclude b round events later)
          (weigh w round.state.aborters + spent_all round.effects + total (brought w) events)
  unfolding conclude
  conclude-Conserves true round events later h =
      omega (arith, total-append (spent w) round.effects later.effects)
  conclude-Conserves false round events later h = omega (
    arith,
    total-append (spent w) round.effects (drain round.state.aborters),
    drain-spent round.state.aborters,
  )

  run-Conserves :
      (c : Settings E S) (cb : S) (s : State) (events : List (Event R E))
      → Conserves (run c cb s events) (weigh w s.aborters + total (brought w) events)
  unfolding run
  run-Conserves c cb s [] = omega arith
  run-Conserves c cb s (event ∷ events) =
      let round : Round R T S = step c cb s event in
      let later : Outcome R T E = run c round.callback round.state events in
      omega (
        arith,
        step-Fair c cb s event,
        conclude-Conserves round.goes_on round events later
            (run-Conserves c round.callback round.state events),
      )

-- For any weight of abort senders: once the main task has returned, what its effects used up and
-- what its unread events bring weigh as much as what it held and all events bring; while it runs, it
-- holds the difference. At `one h`: an abort channel that was made for a request is aborted or
-- dropped exactly once, or is still held; nothing is held after the return.
pub abort_senders_settled :
    (w : ℕ → ℕ) {R E S : Type 0} (T : Type 0) (c : Settings E S) (cb : S) (s : State)
    (events : List (Event R E))
    → let o : Outcome R T E = run c cb s events in
      held w o.ending + total (spent w) o.effects + total (brought w) o.rest
      ≡ weigh w s.aborters + total (brought w) events
abort_senders_settled w {R} {E} {S} T c cb s events = run-Conserves w R T E S c cb s events
