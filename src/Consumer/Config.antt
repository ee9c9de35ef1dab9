-- ===== src/Consumer/Config.antt =====
-- zzrpc/src/consumer/mod.rs: `Configuration` and its `Default`. Of the future `shutdown` the model has
-- what it resolves to: `none` for `Pending`, which never does.
use zzrpc.Prelude.{
  ℕ, ◌≡◌, ◌≢◌, ◌↔◌, refl, inl, inr, Option, none, some, Option-cases, is_some, Bool, true, false,
  List, [], ◌∷◌, get_elem?,
}
use zzrpc.Rpc.{ShutdownType, TransportError, ReceiveErrorCallback, default_on_receive_error}
use zzrpc.Message.{Message, ResultSender}
use zzrpc.Consumer.State.{Effect, send_message, Slot, values, streams, State}
use zzrpc.Consumer.Handle.{handle_message}
use zzrpc.Consumer.Take.{break_, request_slot}
use zzrpc.Consumer.Loop.{
  Received, Taken, Event, received, requested, timed_out, shut_down, consumer_dropped, Settings,
  after_error, take_request, step,
}

pub record Configuration (E S : Type 0) : Type 0 where
  pub shutdown : Option ShutdownType
  pub receive_error_callback : ReceiveErrorCallback S E
  pub timeout : Option ℕ

unfoldable pub default : {E : Type 0} → Configuration E (Unit {0})
default = record {
  shutdown = none;
  receive_error_callback = default_on_receive_error;
  timeout = none;
}

-- What the rounds read of a configuration.
abbrev pub settings : {E S : Type 0} → Configuration E S → Settings E S
settings c = record { has_timeout = is_some c.timeout; on_receive_error = c.receive_error_callback }

-- Whether the futures of the configuration let the event happen.
abbrev pub occurs : {R T E S : Type 0} → Configuration E S → Event R T E → Bool
occurs c timed_out = is_some c.timeout
occurs c (shut_down cause) = is_some c.shutdown
occurs c _ = true

-- The end of the transport, a last message of the producer, and the drop of the consumer.
abbrev pub ends : {R T E : Type 0} → Event R T E → Bool
ends (received none) = true
ends (received (some (Received.ok Message.aborted))) = true
ends (received (some (Received.ok Message.shutdown))) = true
ends consumer_dropped = true
ends _ = false

module _ (R T E : Type 0) where
  slot-unbroken :
      (p : ℕ) (slot : Slot) (id : ℕ) (r : ResultSender) (f : Option (TransportError E))
      → (request_slot {R = R} {T = T} p slot id r f).1 ≢ break_
  unfolding request_slot
  slot-unbroken p (values t) id (ResultSender.value s) f = λ e. cc
  slot-unbroken p (values t) id (ResultSender.stream s x) f = λ e. cc
  slot-unbroken p (values t) id ResultSender.abort f = λ e. cc
  slot-unbroken p (streams t) id (ResultSender.value s) f = λ e. cc
  slot-unbroken p (streams t) id (ResultSender.stream s x) f = λ e. cc
  slot-unbroken p (streams t) id ResultSender.abort f = λ e. cc

  take_request-unbroken :
      {S : Type 0} (cb : S) (effects : List (Effect R T E)) (s : State) (k : ℕ) (taken : Taken R E)
      → (take_request cb effects s k taken).flow ≢ break_
  unfolding take_request
  take_request-unbroken cb effects s k taken = elim (Option-cases (get_elem? s.slots k)) [
    | inl e ↦ rw (e, take_request) (λ q. cc)
    | inr (slot, e) ↦
        rw (e, take_request)
          (slot-unbroken s.pending slot taken.message.id taken.result_sender taken.failure)
  ]

-- With the default configuration the loop is left by a `break` exactly when the transport ends, the
-- producer says that it stops, or the consumer is dropped; not because of a receive error, nor of
-- time, nor of its own accord.
pub default_breaks :
    {R T E : Type 0} (s : State) (event : Event R T E)
    → occurs {E = E} default event ≡ true
    → ((step (settings default) tt s event).flow ≡ break_) ↔ (ends event ≡ true)
unfolding default step handle_message after_error default_on_receive_error
default_breaks s (received none) o = (λ e. refl, λ e. refl)
default_breaks s (received (some (Received.err x))) o = (λ e. cc, λ e. cc)
default_breaks s (received (some (Received.ok (Message.response id r)))) o = (λ e. cc, λ e. cc)
default_breaks s (received (some (Received.ok Message.aborted))) o = (λ e. refl, λ e. refl)
default_breaks s (received (some (Received.ok Message.shutdown))) o = (λ e. refl, λ e. refl)
default_breaks s (requested k none) o = (λ e. cc, λ e. cc)
default_breaks {R} {T} {E} s (requested k (some taken)) o = (
  λ e. absurd (take_request-unbroken R T E tt (send_message taken.message ∷ []) s k taken e),
  λ e. cc,
)
default_breaks s timed_out o = cc
default_breaks s (shut_down cause) o = cc
default_breaks s consumer_dropped o = (λ e. refl, λ e. refl)
