-- ===== src/Producer/Forwarder.antt =====
-- zzrpc-derive/src/lib.rs, `impl_produce`: the task that hands the replies over to the transport.
pub mod Laws
use zzrpc.Prelude.{Bool, true, false, Option, some, List, [], ◌∷◌, ◌++◌}
use zzrpc.Rpc.{ShutdownType, HandlingStrategy, stop, ignore, TransportError, SendErrorCallback}
use zzrpc.Message.{Message}

pub data ForwardEffect (T : Type 0) : Type 0 where
  send_message : Message T → ForwardEffect T  -- `sender.send(message).await` on the transport
  send_stop : ShutdownType → ForwardEffect T  -- `stop_sender.send(shutdown_type)`

-- The state of the task: whether `stop_sender` is still there, and the state of the callback.
pub record Forward (S : Type 0) : Type 0 where
  pub can_stop : Bool
  pub callback : S

module _ {T E S : Type 0} (on_send_error : SendErrorCallback S E) where
  unfoldable pub after_error : Bool → HandlingStrategy × S → Forward S × List (ForwardEffect T)
  after_error true (stop cause, cb) =
      (record { can_stop = false; callback = cb }, send_stop cause ∷ [])
  after_error false (stop cause, cb) = (record { can_stop = false; callback = cb }, [])
  after_error can_stop (ignore, cb) = (record { can_stop = can_stop; callback = cb }, [])

  -- What follows `sender.send(message).await`, by its error.
  unfoldable pub after_send :
      Forward S → Message T → Option (TransportError E) → Forward S × List (ForwardEffect T)
  unfolding after_error
  after_send f (Message.response id r) (some e) =
      after_error f.can_stop (on_send_error f.callback id e)
  after_send f message failure = (f, [])

  -- One round: a reply, and the error of its sending.
  unfoldable pub forward :
      Forward S → Message T × Option (TransportError E) → Forward S × List (ForwardEffect T)
  unfolding after_send
  forward f (message, failure) =
      let (f', effects) = after_send f message failure in (f', send_message message ∷ effects)

  unfoldable pub forward_all :
      Forward S → List (Message T × Option (TransportError E)) → Forward S × List (ForwardEffect T)
  forward_all f [] = (f, [])
  forward_all f (r ∷ rs) =
      let (f', effects) = forward f r in
      let (f'', later) = forward_all f' rs in (f'', effects ++ later)
