-- ===== src/Producer/Requests.antt =====
-- Which requests the main task of the producer starts, and what it tells the consumer at the end.
use zzrpc.Prelude.{
  ℕ, ◌≡◌, refl, ap, ◌∙◌, Option, none, some, Bool, true, false, List, [], ◌∷◌, ◌++◌,
}
use mathlib.Core.List.{append_assoc, append-nil}
use zzrpc.Prelude.Table.{Table, lookup}
use zzrpc.Rpc.{ShutdownType, HandlingStrategy, stop, ignore}
use zzrpc.Message.{Payload, Message}
use zzrpc.Producer.Loop.{
  Effect, reset_timeout, spawn, send_abort, drop_aborter, reply, State, Received, Event, received,
  removed, timed_out, stopped, shut_down, Round, Settings, drop_option, abort_option, reset_if,
  handle_message, farewell, reply_option, stop_with, after_error, expire, time_out, step, Ending,
  returned, running, Outcome, drain, conclude, run,
}

module _ {R T : Type 0} where
  -- The requests that are spawned, each with its id.
  abbrev pub spawns : List (Effect R T) → List (ℕ × R)
  spawns [] = []
  spawns (spawn id r ch ∷ effects) = (id, r) ∷ spawns effects
  spawns (_ ∷ effects) = spawns effects

  -- The messages that the main task itself sends to the consumer.
  abbrev pub replies : List (Effect R T) → List (Message T)
  replies [] = []
  replies (reply m ∷ effects) = m ∷ replies effects
  replies (_ ∷ effects) = replies effects

abbrev pub asked : {R : Type 0} → ℕ → Payload R → List (ℕ × R)
asked id (Payload.request r) = (id, r) ∷ []
asked id Payload.abort = []

module _ {R E : Type 0} where
  abbrev pub requests_of : Event R E → List (ℕ × R)
  requests_of (received (some (Received.ok m ch))) = asked m.id m.payload
  requests_of _ = []

  -- The requests among the events, each with its id.
  abbrev pub requests : List (Event R E) → List (ℕ × R)
  requests [] = []
  requests (event ∷ events) = requests_of event ++ requests events

module _ (R T E S : Type 0) where
  spawns-append : (xs ys : List (Effect R T)) → spawns (xs ++ ys) ≡ spawns xs ++ spawns ys
  spawns-append [] ys = refl
  spawns-append (spawn id r ch ∷ xs) ys = ap (λ l. (id, r) ∷ l) (spawns-append xs ys)
  spawns-append (reset_timeout ∷ xs) ys = spawns-append xs ys
  spawns-append (send_abort s ∷ xs) ys = spawns-append xs ys
  spawns-append (drop_aborter s ∷ xs) ys = spawns-append xs ys
  spawns-append (reply m ∷ xs) ys = spawns-append xs ys

  replies-append : (xs ys : List (Effect R T)) → replies (xs ++ ys) ≡ replies xs ++ replies ys
  replies-append [] ys = refl
  replies-append (reply m ∷ xs) ys = ap (λ l. m ∷ l) (replies-append xs ys)
  replies-append (reset_timeout ∷ xs) ys = replies-append xs ys
  replies-append (send_abort s ∷ xs) ys = replies-append xs ys
  replies-append (drop_aborter s ∷ xs) ys = replies-append xs ys
  replies-append (spawn id r ch ∷ xs) ys = replies-append xs ys

  abbrev pub last_words : ShutdownType → List (Message T)
  last_words cause = replies {R = R} (reply_option (farewell cause))

  -- What one round spawns and says.
  abbrev pub Tells : List (ℕ × R) → Round R T S → Type 0
  Tells asks r =
      (spawns r.effects ≡ asks)
      × (r.goes_on ≡ true → replies r.effects ≡ [])
      × (r.goes_on ≡ false → replies r.effects ≡ last_words r.state.return_value)

  abbrev Quiet : List (Effect R T) → Type 0
  Quiet effects = (spawns effects ≡ []) × (replies effects ≡ [])

  reset_if-Quiet : (b : Bool) → Quiet (reset_if b)
  reset_if-Quiet true = (refl, refl)
  reset_if-Quiet false = (refl, refl)

  drop_option-Quiet : (o : Option ℕ) → Quiet (drop_option o)
  drop_option-Quiet none = (refl, refl)
  drop_option-Quiet (some s) = (refl, refl)

  abort_option-Quiet : (o : Option ℕ) → Quiet (abort_option o)
  abort_option-Quiet none = (refl, refl)
  abort_option-Quiet (some s) = (refl, refl)

  drain-Quiet : (t : Table ℕ) → Quiet (drain t)
  unfolding drain
  drain-Quiet [] = (refl, refl)
  drain-Quiet ((id, s) ∷ t) = drain-Quiet t

  farewell-spawns : (o : Option (Message T)) → spawns {R = R} (reply_option o) ≡ []
  farewell-spawns none = refl
  farewell-spawns (some m) = refl

  stop_with-Tells :
      (cb : S) (effects : List (Effect R T)) (s : State) (cause : ShutdownType)
      → Quiet effects
      → Tells [] (stop_with cb effects s cause)
  unfolding stop_with
  stop_with-Tells cb effects s cause q = (
    spawns-append effects _ ∙ simp (q.0) (farewell-spawns (farewell cause)),
    λ e. cc,
    λ e. replies-append effects _ ∙ simp (q.1),
  )

  handle_message-tells :
      (t : Table ℕ) (id : ℕ) (p : Payload R) (ch : ℕ)
      → let effects : List (Effect R T) =
          (handle_message t (record { id = id; payload = p }) ch).1 in
        (spawns effects ≡ asked id p) × (replies effects ≡ [])
  unfolding handle_message
  handle_message-tells t id (Payload.request r) ch =
      let q = drop_option-Quiet (lookup id t) in
      (
        spawns-append (drop_option (lookup id t)) (spawn id r ch ∷ []) ∙ simp (q.0),
        replies-append (drop_option (lookup id t)) (spawn id r ch ∷ []) ∙ simp (q.1),
      )
  handle_message-tells t id Payload.abort ch = abort_option-Quiet (lookup id t)

  after_error-Tells :
      (effects : List (Effect R T)) (s : State) (answer : HandlingStrategy × S)
      → Quiet effects
      → Tells [] (after_error effects s answer)
  unfolding after_error
  after_error-Tells effects s (stop cause, cb) q = stop_with-Tells cb effects s cause q
  after_error-Tells effects s (ignore, cb) q = (q.0, λ e. q.1, λ e. cc)

  expire-Tells : (cb : S) (s : State) (t : Table ℕ) → Tells [] (expire cb s t)
  unfolding expire
  expire-Tells cb s [] = stop_with-Tells cb [] s ShutdownType.timeout (refl, refl)
  expire-Tells cb s (e ∷ t) = (refl, λ e. refl, λ e. cc)

  time_out-Tells : (b : Bool) (cb : S) (s : State) → Tells [] (time_out b cb s)
  unfolding time_out
  time_out-Tells true cb s = expire-Tells cb s s.aborters
  time_out-Tells false cb s = (refl, λ e. refl, λ e. cc)

  pub step-Tells :
      (c : Settings E S) (cb : S) (s : State) (event : Event R E)
      → Tells (requests_of event) (step c cb s event)
  unfolding step
  step-Tells c cb s (received none) =
      stop_with-Tells cb (reset_if c.has_timeout) s ShutdownType.closed
        (reset_if-Quiet c.has_timeout)
  step-Tells c cb s (received (some (Received.err e))) =
      after_error-Tells (reset_if c.has_timeout) s (c.on_receive_error cb e)
        (reset_if-Quiet c.has_timeout)
  step-Tells c cb s (received (some (Received.ok m ch))) =
      let q = reset_if-Quiet c.has_timeout in
      let h = handle_message-tells s.aborters m.id m.payload ch in
      (
        spawns-append (reset_if c.has_timeout) _ ∙ simp (q.0) (h.0),
        λ e. replies-append (reset_if c.has_timeout) _ ∙ simp (q.1) (h.1),
        λ e. cc,
      )
  step-Tells c cb s (removed none) = (refl, λ e. refl, λ e. cc)
  step-Tells c cb s (removed (some id)) =
      let q = drop_option-Quiet (lookup id s.aborters) in (q.0, λ e. q.1, λ e. cc)
  step-Tells c cb s timed_out = time_out-Tells c.has_timeout cb s
  step-Tells c cb s (stopped none) = (refl, λ e. refl, λ e. cc)
  step-Tells c cb s (stopped (some cause)) = stop_with-Tells cb [] s cause (refl, refl)
  step-Tells c cb s (shut_down cause) = stop_with-Tells cb [] s cause (refl, refl)

  -- What is told at the end of a run.
  abbrev Told : Ending → List (Effect R T) → Type 0
  Told (running s) effects = replies effects ≡ []
  Told (returned cause) effects = replies effects ≡ last_words cause

  abbrev Report : List (ℕ × R) → Outcome R T E → Type 0
  Report asks o = (spawns o.effects ++ requests o.rest ≡ asks) × Told o.ending o.effects

  Told-append :
      (ending : Ending) (xs ys : List (Effect R T))
      → replies xs ≡ []
      → Told ending ys
      → Told ending (xs ++ ys)
  Told-append (running s) xs ys e t = replies-append xs ys ∙ simp e t
  Told-append (returned cause) xs ys e t = replies-append xs ys ∙ simp e t

  conclude-Report :
      (b : Bool) (round : Round R T S) (asks : List (ℕ × R)) (events : List (Event R E))
      (later : Outcome R T E)
      → round.goes_on ≡ b
      → Tells asks round
      → Report (requests events) later
      → Report (asks ++ requests events) (conclude b round events later)
  unfolding conclude
  conclude-Report true round asks events later b t r = (
    rw (spawns-append, t.0, append_assoc asks (spawns later.effects) (requests later.rest), r.0),
    Told-append later.ending round.effects later.effects (t.1 b) r.1,
  )
  conclude-Report false round asks events later b t r =
      let q = drain-Quiet round.state.aborters in
      (
        rw (spawns-append, t.0, q.0) (simp append-nil),
        rw (replies-append, t.2 b, q.1) (append-nil _),
      )

  run-Report :
      (c : Settings E S) (cb : S) (s : State) (events : List (Event R E))
      → Report (requests events) (run c cb s events)
  unfolding run
  run-Report c cb s [] = (refl, refl)
  run-Report c cb s (event ∷ events) =
      let round : Round R T S = step c cb s event in
      let later : Outcome R T E = run c round.callback round.state events in
      conclude-Report round.goes_on round (requests_of event) events later refl
        (step-Tells c cb s event) (run-Report c round.callback round.state events)

-- Every request that the main task reads is started, once, in order and with its id: the requests
-- that it spawned, followed by those among the events that it did not read, are the requests of all
-- events. Of its own accord it sends nothing to the consumer while it runs; a task that returned
-- `Shutdown` or `Aborted` has sent that message, once, and one that returned `Closed` or `Timeout`
-- has sent nothing.
pub requests_started :
    {R E S : Type 0} (T : Type 0) (c : Settings E S) (cb : S) (s : State)
    (events : List (Event R E))
    → let o : Outcome R T E = run c cb s events in
      (spawns o.effects ++ requests o.rest ≡ requests events)
      × ((t : State) → o.ending ≡ running t → replies o.effects ≡ [])
      × (o.ending ≡ returned ShutdownType.shutdown → replies o.effects ≡ Message.shutdown ∷ [])
      × (o.ending ≡ returned ShutdownType.aborted → replies o.effects ≡ Message.aborted ∷ [])
      × (o.ending ≡ returned ShutdownType.closed → replies o.effects ≡ [])
      × (o.ending ≡ returned ShutdownType.timeout → replies o.effects ≡ [])
unfolding farewell
requests_started {R} {E} {S} T c cb s events =
    let o : Outcome R T E = run c cb s events in
    let (started, told) = run-Report R T E S c cb s events in
    (
      started,
      λ t e. rw e at told,
      λ e. rw e at told,
      λ e. rw e at told,
      λ e. rw e at told,
      λ e. rw e at told,
    )
