-- ===== src/Rpc.antt =====
-- zzrpc/src/lib.rs: errors, shutdown types, handling strategies and the default callbacks.
-- `TransportError` is `mezzenger::Error`, whose two variants the source matches exhaustively.
pub mod Timeout
use Prim.Native.String.{String}
use zzrpc.Prelude.{ℕ, ◌≡◌, refl}

pub data Error (E : Type 0) : Type 0 where
  closed aborted shutdown timeout dropped : Error E
  transport : E → Error E

pub data ShutdownType : Type 0 where
  closed shutdown aborted timeout : ShutdownType

-- `impl From<ShutdownType> for Error`
unfoldable pub from_shutdown : {E : Type 0} → ShutdownType → Error E
from_shutdown ShutdownType.closed = Error.closed
from_shutdown ShutdownType.shutdown = Error.shutdown
from_shutdown ShutdownType.aborted = Error.aborted
from_shutdown ShutdownType.timeout = Error.timeout

pub data HandlingStrategy : Type 0 where
  stop : ShutdownType → HandlingStrategy
  ignore : HandlingStrategy

pub data TransportError (E : Type 0) : Type 0 where
  closed : TransportError E
  other : E → TransportError E

-- `SendErrorCallback` and `ReceiveErrorCallback`. A callback is an `FnMut`: it carries a state `S`.
abbrev pub SendErrorCallback : Type 0 → Type 0 → Type 0
SendErrorCallback S E = S → ℕ → TransportError E → HandlingStrategy × S

abbrev pub ReceiveErrorCallback : Type 0 → Type 0 → Type 0
ReceiveErrorCallback S E = S → E → HandlingStrategy × S

unfoldable pub default_on_send_error : {E : Type 0} → SendErrorCallback (Unit {0}) E
default_on_send_error s id TransportError.closed = (stop ShutdownType.closed, s)
default_on_send_error s id (TransportError.other e) = (ignore, s)

unfoldable pub default_on_receive_error : {E : Type 0} → ReceiveErrorCallback (Unit {0}) E
default_on_receive_error s e = (ignore, s)

-- The `map_err` of the generated consumer, at its `sender.send(message).await`.
unfoldable pub from_transport_error : {E : Type 0} → TransportError E → Error E
from_transport_error TransportError.closed = Error.closed
from_transport_error (TransportError.other e) = Error.transport e
