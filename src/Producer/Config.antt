-- ===== src/Producer/Config.antt =====
-- zzrpc/src/producer.rs: `Configuration` and its `Default`. Of the future `shutdown` the model has what
-- it resolves to: `none` for `Pending`, which never does.
use zzrpc.Prelude.{ℕ, ◌≡◌, ◌↔◌, refl, Option, none, some, is_some, Bool, true, false}
use zzrpc.Rpc.{
  ShutdownType, SendErrorCallback, ReceiveErrorCallback, default_on_send_error,
  default_on_receive_error,
}
use zzrpc.Producer.Loop.{
  State, Received, Event, received, removed, timed_out, stopped, shut_down, Settings, step,
  after_error,
}

pub record Configuration (E F S : Type 0) : Type 0 where
  pub shutdown : Option ShutdownType
  pub send_error_callback : SendErrorCallback F E
  pub receive_error_callback : ReceiveErrorCallback S E
  pub timeout : Option ℕ

unfoldable pub default : {E : Type 0} → Configuration E (Unit {0}) (Unit {0})
default = record {
  shutdown = none;
  send_error_callback = default_on_send_error;
  receive_error_callback = default_on_receive_error;
  timeout = none;
}

-- What the rounds of the main task read of a configuration.
abbrev pub settings : {E F S : Type 0} → Configuration E F S → Settings E S
settings c = record { has_timeout = is_some c.timeout; on_receive_error = c.receive_error_callback }

-- Whether the futures of the configuration let the event happen.
abbrev pub occurs : {R E F S : Type 0} → Configuration E F S → Event R E → Bool
occurs c timed_out = is_some c.timeout
occurs c (shut_down cause) = is_some c.shutdown
occurs c _ = true

-- The end of the transport, and the stop that the send error callback asked for.
abbrev pub ends : {R E : Type 0} → Event R E → Bool
ends (received none) = true
ends (stopped (some cause)) = true
ends _ = false

-- With the default configuration the main task stops exactly when the transport ends or the callback
-- for send errors asked it to; not because of a receive error, nor of time, nor of its own accord.
pub default_returns :
    {R E : Type 0} (T : Type 0) (s : State) (event : Event R E)
    → occurs {E = E} default event ≡ true
    → ((step {T = T} (settings default) tt s event).goes_on ≡ false) ↔ (ends event ≡ true)
unfolding default step after_error default_on_receive_error
default_returns T s (received none) o = (λ e. refl, λ e. refl)
default_returns T s (received (some (Received.err x))) o = (λ e. cc, λ e. cc)
default_returns T s (received (some (Received.ok m ch))) o = (λ e. cc, λ e. cc)
default_returns T s (removed none) o = (λ e. cc, λ e. cc)
default_returns T s (removed (some id)) o = (λ e. cc, λ e. cc)
default_returns T s timed_out o = cc
default_returns T s (stopped none) o = (λ e. cc, λ e. cc)
default_returns T s (stopped (some cause)) o = (λ e. refl, λ e. refl)
default_returns T s (shut_down cause) o = cc
