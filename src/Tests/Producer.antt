-- ===== src/Tests/Producer.antt =====
-- The tasks of the producer.
use mathlib.Core.Logic.{ite, if_pos, if_neg}
use native.Mathlib.Decide.{dec_lt}
use zzrpc.Prelude.{
  ℕ, ◌+◌, ◌<◌, ◌≤◌, ◌≡◌, ◌⊎◌, refl, Option, none, some, true, false, List, [], ◌∷◌, ◌++◌, map,
  arith, one, total,
}
use zzrpc.Prelude.Table.{lookup, insert, remove, weigh}
use zzrpc.Rpc.{ShutdownType, ignore, TransportError, default_on_send_error}
use zzrpc.Rpc.Timeout
use zzrpc.Rpc.Timeout.{Poll, ready, pending, Sleeping, SleepLaws}
use zzrpc.Rpc.Timeout.Laws.{timeout-fires}
use zzrpc.Message.{Request, Payload, Response, Message}
use zzrpc.Producer.Loop.{
  reset_timeout, spawn, send_abort, drop_aborter, reply, State, Received, Event, received, removed,
  timed_out, shut_down, Settings, reset_if, go_on, Outcome, returned, running, step, run, start,
}
use zzrpc.Producer.Aborters.{spent, brought, held, abort_senders_settled}
use zzrpc.Producer.Requests.{spawns, replies, requests_started}
use zzrpc.Producer.Flight.{got, ended, request_aborted}
use zzrpc.Producer.Forwarder.{Forward, forward_all}
use zzrpc.Producer.Forwarder.Laws.{sent, stops, forward_all-sends, default_stops}

program : Unit {0}
unfolding run step lookup insert remove forward_all default_on_send_error weigh
program = tt

abbrev settings : Settings ℕ (Unit {0})
settings = record { has_timeout = true; on_receive_error = λ s e. (ignore, s) }

abbrev ask : ℕ → ℕ → Event ℕ ℕ
ask id channel =
    received (some (Received.ok (record { id = id; payload = Payload.request 7 }) channel))

-- Two requests, the second ends; then the producer is shut down, and a third comes too late.
abbrev history : List (Event ℕ ℕ)
history =
    ask 0 20
    ∷ ask 1 21
    ∷ removed (some 1)
    ∷ timed_out
    ∷ shut_down ShutdownType.shutdown
    ∷ ask 2 22
    ∷ []

abbrev outcome : Outcome ℕ ℕ ℕ
outcome = run settings tt start history

outcome_effects :
    outcome.effects
    ≡ reset_timeout
      ∷ spawn 0 7 20
      ∷ reset_timeout
      ∷ spawn 1 7 21
      ∷ drop_aborter 21
      ∷ reset_timeout
      ∷ reply Message.shutdown
      ∷ send_abort 20
      ∷ []
unfolding program
outcome_effects = refl

abort_senders_settled_example :
    held (one 20) outcome.ending
      + total (spent (one 20)) outcome.effects
      + total (brought (one 20)) outcome.rest
    ≡ 1
unfolding program
abort_senders_settled_example = abort_senders_settled (one 20) ℕ settings tt start history

requests_started_example :
    (spawns outcome.effects ++ (2, 7) ∷ [] ≡ (0, 7) ∷ (1, 7) ∷ (2, 7) ∷ [])
    × ((t : State) → outcome.ending ≡ running t → replies outcome.effects ≡ [])
    × (outcome.ending ≡ returned ShutdownType.shutdown
        → replies outcome.effects ≡ Message.shutdown ∷ [])
    × (outcome.ending ≡ returned ShutdownType.aborted
        → replies outcome.effects ≡ Message.aborted ∷ [])
    × (outcome.ending ≡ returned ShutdownType.closed → replies outcome.effects ≡ [])
    × (outcome.ending ≡ returned ShutdownType.timeout → replies outcome.effects ≡ [])
unfolding program
requests_started_example = requests_started ℕ settings tt start history

abbrev busy : State
busy = record start { aborters = (0, 20) ∷ [] }

request_aborted_example :
    let abort : Request ℕ = record { id = 1; payload = Payload.abort } in
    let request : Request ℕ = record { id = 1; payload = Payload.request 7 } in
    let begun = got {T = ℕ} settings tt busy request 21 in
    (begun.effects ≡ reset_if settings.has_timeout ++ spawn 1 7 21 ∷ [])
    × (got {T = ℕ} settings tt begun.state abort 22
        ≡ go_on tt (reset_if settings.has_timeout ++ send_abort 21 ∷ []) busy)
    × (ended {R = ℕ} {T = ℕ} settings tt begun.state 1 ≡ go_on tt (drop_aborter 21 ∷ []) busy)
    × (got {T = ℕ} settings tt (ended {R = ℕ} {T = ℕ} settings tt begun.state 1).state abort 22
        ≡ go_on tt (reset_if settings.has_timeout ++ []) busy)
unfolding lookup
request_aborted_example = request_aborted settings tt busy 1 21 22 7 refl

abbrev answered : ℕ → Option (TransportError ℕ) → Message ℕ × Option (TransportError ℕ)
answered id failure = (Message.response id (Response.value 0 42), failure)

abbrev replies_sent : List (Message ℕ × Option (TransportError ℕ))
replies_sent =
    answered 0 none
    ∷ answered 1 (some (TransportError.other 5))
    ∷ answered 2 (some TransportError.closed)
    ∷ answered 3 (some TransportError.closed)
    ∷ []

abbrev fresh : Forward (Unit {0})
fresh = record { can_stop = true; callback = tt }

forward_all-sends_example :
    let (f', effects) = forward_all default_on_send_error fresh replies_sent in
    (sent effects ≡ map (λ r. r.0) replies_sent)
    × (((stops effects ≡ []) × (f'.can_stop ≡ true))
        ⊎ ((cause : ShutdownType) × (fresh.can_stop ≡ true)
            × (stops effects ≡ cause ∷ [])
            × (f'.can_stop ≡ false)))
forward_all-sends_example = forward_all-sends default_on_send_error fresh replies_sent

default_stops_example :
    stops (forward_all default_on_send_error fresh replies_sent).1 ≡ ShutdownType.closed ∷ []
default_stops_example = default_stops fresh replies_sent

-- A sleep is its deadline.
abbrev sleeping : Sleeping
sleeping = record {
  Sleep = ℕ;
  sleep = λ now d. now + d;
  reset_at = λ s t. t;
  poll_sleep = λ s now. (ite (dec_lt now s) pending (ready tt), s);
}

sleeping_early : (s now : ℕ) → now < s → (sleeping.poll_sleep s now).0 ≡ pending
sleeping_early s now h = rw (if_pos (dec_lt now s) h) refl

sleeping_due : (s now : ℕ) → s ≤ now → (sleeping.poll_sleep s now).0 ≡ ready tt
sleeping_due s now h = rw (if_neg (dec_lt now s) (omega arith)) refl

abbrev sleeping_laws : SleepLaws sleeping
sleeping_laws = record {
  deadline = λ s. s;
  deadline-sleep = λ now d. refl;
  deadline-reset = λ s t. refl;
  early = sleeping_early;
  due = sleeping_due;
  deadline-poll = λ s now. refl;
}

timeout-fires_example :
    let t = Timeout.new sleeping 0 3 in
    let u = Timeout.reset sleeping 3 (Timeout.poll sleeping 3 t).1 in
    (3 < 0 + 3 → (Timeout.poll sleeping 3 t).0 ≡ pending)
    × (0 + 3 ≤ 3 → (Timeout.poll sleeping 3 t).0 ≡ ready tt)
    × (0 + 3 ≤ 5 → (Timeout.poll sleeping 5 (Timeout.poll sleeping 3 t).1).0 ≡ ready tt)
    × (5 < 3 + 3 → (Timeout.poll sleeping 5 u).0 ≡ pending)
    × (3 + 3 ≤ 5 → (Timeout.poll sleeping 5 u).0 ≡ ready tt)
timeout-fires_example = timeout-fires sleeping sleeping_laws 0 3 3 3 5
