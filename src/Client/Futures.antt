-- ===== src/Client/Futures.antt =====
-- What the futures of both kinds of methods have in common.
use zzrpc.Prelude.{◌≡◌, true, none}
use zzrpc.Rpc.Timeout.{ready}
use zzrpc.Message.{Result}
use zzrpc.Client.Channels.{Channels, Store}
use zzrpc.Client.Value
use zzrpc.Client.Value.{ValueRequest}
use zzrpc.Client.Value.Laws.{poll-finishes}
use zzrpc.Client.Stream
use zzrpc.Client.Stream.{StreamRequest}
use zzrpc.Client.Stream.Items
use zzrpc.Client.Stream.Laws.{stream-poll-finishes}

module _ {R T E : Type 0} (c : Channels R T E) (s : Store c.World) where
  -- After any poll of a request for a value or for a stream the request is gone, so no later poll
  -- sends it again. Once a poll is ready the future is terminated, and its drop sends no abort and
  -- changes nothing.
  pub polled_once :
      (me : ValueRequest R) (it : StreamRequest R)
      → let (answered, me') = (Value.poll c me s).0 in
        let (opened, it') = (Stream.poll c it s).0 in
        (me'.request ≡ none)
        × ((r : Result T E)
            → answered ≡ ready r
            → (Value.is_terminated me' ≡ true)
              × ((t : Store c.World) → Value.drop c me' t ≡ (tt, t)))
        × (it'.request ≡ none)
        × ((r : Result Items.Stream E)
            → opened ≡ ready r
            → (Stream.is_terminated it' ≡ true)
              × ((t : Store c.World) → Stream.drop c it' t ≡ (tt, t)))
  polled_once me it =
      let (a, b) = poll-finishes c me s in let (e, f) = stream-poll-finishes c it s in (a, b, e, f)
