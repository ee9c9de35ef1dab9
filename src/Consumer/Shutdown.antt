-- ===== src/Consumer/Shutdown.antt =====
-- What stops the loop of the consumer, and what the requests in flight then learn.
use zzrpc.Prelude.{
  ℕ, ◌≡◌, refl, subst, inl, inr, none, some, Bool, true, false, List, [], ◌∷◌, ◌++◌, map, arith,
  total, Option-cases,
}
use zzrpc.Prelude.Table.{Table}
use zzrpc.Rpc.{ShutdownType, from_shutdown, HandlingStrategy, stop, ignore}
use zzrpc.Message.{Result, Message}
use zzrpc.Consumer.State.{
  Effect, reset_timeout, send_message, send_result, send_open, send_item, drop_sender, drop_values,
  Entry, Slot, values, streams, State,
}
use zzrpc.Consumer.Handle.{
  drain_values, drain_entry, drain_streams, drain_slots, drained, idle, handle_message,
}
use zzrpc.Consumer.Take.{break_}
use zzrpc.Consumer.Loop.{
  Received, Event, received, timed_out, shut_down, Round, Settings, reset_if, stop_with,
  after_error, step,
}
use zzrpc.Consumer.Mass.{mass, spent, mass-drained}
use zzrpc.Consumer.Fair.{step-Fair, brought_by}

-- Why a round stops the loop, with the shutdown type.
pub data Stops {R T E S : Type 0} (c : Settings E S) (cb : S) (s : State)
    : Event R T E → ShutdownType → Type 0 where
  ended : Stops c cb s (received none) ShutdownType.closed
  told_aborted : Stops c cb s (received (some (Received.ok Message.aborted))) ShutdownType.aborted
  told_shutdown :
      Stops c cb s (received (some (Received.ok Message.shutdown))) ShutdownType.shutdown
  failed :
      {e : E} {cause : ShutdownType}
      → (c.on_receive_error cb e).0 ≡ stop cause
      → Stops c cb s (received (some (Received.err e))) cause
  expired : c.has_timeout ≡ true → idle s ≡ false → Stops c cb s timed_out ShutdownType.timeout
  asked : {cause : ShutdownType} → Stops c cb s (shut_down cause) cause

-- Every answer is the error of the shutdown type, and no sender of a request is dropped unused.
abbrev pub Fails : {R T E : Type 0} → ShutdownType → List (Effect R T E) → Type 0
Fails cause [] = Unit {0}
Fails cause (reset_timeout ∷ effects) = Fails cause effects
Fails cause (send_result sender r ∷ effects) =
    (r ≡ Result.err (from_shutdown cause)) × Fails cause effects
Fails cause (send_open sender r ∷ effects) =
    (r ≡ Result.err (from_shutdown cause)) × Fails cause effects
Fails cause (drop_values sender ∷ effects) = Fails cause effects
Fails cause (_ ∷ effects) = ⊥

module _ (R T E : Type 0) where
  Fails-append :
      (cause : ShutdownType) (xs ys : List (Effect R T E))
      → Fails cause xs
      → Fails cause ys
      → Fails cause (xs ++ ys)
  Fails-append cause [] ys f g = g
  Fails-append cause (reset_timeout ∷ xs) ys f g = Fails-append cause xs ys f g
  Fails-append cause (send_result s r ∷ xs) ys f g = (f.0, Fails-append cause xs ys f.1 g)
  Fails-append cause (send_open s r ∷ xs) ys f g = (f.0, Fails-append cause xs ys f.1 g)
  Fails-append cause (drop_values s ∷ xs) ys f g = Fails-append cause xs ys f g
  Fails-append cause (send_message m ∷ xs) ys f g = absurd f
  Fails-append cause (send_item s x ∷ xs) ys f g = absurd f
  Fails-append cause (drop_sender s ∷ xs) ys f g = absurd f

  drain_values-Fails :
      (cause : ShutdownType) (t : Table ℕ)
      → Fails {R = R} {T = T} {E = E} cause (drain_values cause t)
  unfolding drain_values
  drain_values-Fails cause [] = tt
  drain_values-Fails cause ((id, s) ∷ t) = (refl, drain_values-Fails cause t)

  drain_entry-Fails :
      (cause : ShutdownType) (e : Entry) → Fails {R = R} {T = T} {E = E} cause (drain_entry cause e)
  unfolding drain_entry
  drain_entry-Fails cause entry = elim (Option-cases entry.result) [
    | inl e ↦ rw (e, drain_entry) tt
    | inr (sender, e) ↦ rw (e, drain_entry) (refl, tt)
  ]

  drain_streams-Fails :
      (cause : ShutdownType) (t : Table Entry)
      → Fails {R = R} {T = T} {E = E} cause (drain_streams cause t)
  unfolding drain_streams
  drain_streams-Fails cause [] = tt
  drain_streams-Fails cause ((id, e) ∷ t) =
      Fails-append cause (drain_entry cause e) _ (drain_entry-Fails cause e)
        (drain_streams-Fails cause t)

  drain_slots-Fails :
      (cause : ShutdownType) (slots : List Slot)
      → Fails {R = R} {T = T} {E = E} cause (drain_slots cause slots)
  unfolding drain_slots
  drain_slots-Fails cause [] = tt
  drain_slots-Fails cause (values t ∷ slots) =
      Fails-append cause (drain_values cause t) _ (drain_values-Fails cause t)
        (drain_slots-Fails cause slots)
  drain_slots-Fails cause (streams t ∷ slots) =
      Fails-append cause (drain_streams cause t) _ (drain_streams-Fails cause t)
        (drain_slots-Fails cause slots)

  reset_if-Fails :
      (cause : ShutdownType) (b : Bool) → Fails {R = R} {T = T} {E = E} cause (reset_if b)
  reset_if-Fails cause true = tt
  reset_if-Fails cause false = tt

  module _ (S : Type 0) where
    abbrev Ends : State → ShutdownType → Round R T E S → Type 0
    Ends s cause r =
        (r.flow ≡ break_) × Fails cause r.effects × (r.state.slots ≡ map drained s.slots)

    stop_with-Ends :
        (cb : S) (effects : List (Effect R T E)) (s : State) (cause : ShutdownType)
        → Fails cause effects
        → Ends s cause (stop_with cb effects s cause)
    unfolding stop_with
    stop_with-Ends cb effects s cause f =
        (refl, Fails-append cause effects _ f (drain_slots-Fails cause s.slots), refl)

    after_error-Ends :
        (effects : List (Effect R T E)) (s : State) (answer : HandlingStrategy × S)
        (cause : ShutdownType)
        → answer.0 ≡ stop cause
        → Fails cause effects
        → Ends s cause (after_error effects s answer)
    unfolding after_error
    after_error-Ends effects s (stop cause', cb) cause e f =
        subst (λ x. Ends s cause (stop_with cb effects s x)) (ground arith)
          (stop_with-Ends cb effects s cause f)
    after_error-Ends effects s (ignore, cb) cause e f = cc

    step-Ends :
        (c : Settings E S) (cb : S) (s : State) (event : Event R T E) (cause : ShutdownType)
        → Stops c cb s event cause
        → Ends s cause (step c cb s event)
    unfolding step handle_message
    step-Ends c cb s event cause ended = stop_with-Ends cb [] s ShutdownType.closed tt
    step-Ends c cb s event cause told_aborted =
        stop_with-Ends cb (reset_if c.has_timeout ++ []) s ShutdownType.aborted (
          Fails-append ShutdownType.aborted (reset_if c.has_timeout) []
            (reset_if-Fails ShutdownType.aborted c.has_timeout) tt)
    step-Ends c cb s event cause told_shutdown =
        stop_with-Ends cb (reset_if c.has_timeout ++ []) s ShutdownType.shutdown (
          Fails-append ShutdownType.shutdown (reset_if c.has_timeout) []
            (reset_if-Fails ShutdownType.shutdown c.has_timeout) tt)
    step-Ends c cb s event cause (failed {e} {cause = x} h) =
        after_error-Ends (reset_if c.has_timeout) s (c.on_receive_error cb e) x h
          (reset_if-Fails x c.has_timeout)
    step-Ends c cb s event cause (expired h i) =
        rw (h, i) (stop_with-Ends cb [] s ShutdownType.timeout tt)
    step-Ends c cb s event cause (asked {cause = x}) = stop_with-Ends cb [] s x tt

Stops-brought :
    (u v : ℕ → ℕ) (R T E S : Type 0) {c : Settings E S} {cb : S} {s : State} {event : Event R T E}
    {cause : ShutdownType}
    → Stops c cb s event cause
    → brought_by u v event ≡ 0
Stops-brought u v R T E S ended = refl
Stops-brought u v R T E S told_aborted = refl
Stops-brought u v R T E S told_shutdown = refl
Stops-brought u v R T E S (failed h) = refl
Stops-brought u v R T E S (expired h i) = refl
Stops-brought u v R T E S asked = refl

-- Whatever stops the loop (the end of the transport, a last message of the producer, a receive error
-- that the callback does not ignore, the timeout while requests are in flight, the shutdown future):
-- the round leaves the loop, every sender that the state holds is used up, those of requests by the
-- error of the shutdown type, and the state holds none afterwards.
pub stop-Fails_all :
    {R T E S : Type 0} {c : Settings E S} {cb : S} {s : State} {event : Event R T E}
    {cause : ShutdownType}
    → Stops c cb s event cause
    → let r = step c cb s event in
      (r.flow ≡ break_)
      × Fails cause r.effects
      × ((u v : ℕ → ℕ) → (total (spent u v) r.effects ≡ mass u v s) × (mass u v r.state ≡ 0))
stop-Fails_all {R} {T} {E} {S} {c} {cb} {s} {event} {cause} h =
    let (left, fails, slots) = step-Ends R T E S c cb s event cause h in
    (
      left,
      fails,
      λ u v.
          let empty : mass u v (step c cb s event).state ≡ 0 =
            rw slots (mass-drained u v R T E s.slots) in
          (
            omega (arith, step-Fair u v R T E S c cb s event, Stops-brought u v R T E S h, empty),
            empty,
          ),
    )
