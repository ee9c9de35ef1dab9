-- ===== src/Client/Stream/Items.antt =====
-- zzrpc/src/consumer/stream.rs: `Stream`, the stream of the items.
use zzrpc.Prelude.{ℕ, Bool, not, Option, none, some, is_some, if◌then◌else◌}
use zzrpc.Rpc.Timeout.{Poll, ready, pending}
use zzrpc.Message.{Payload, ResultSender}
use zzrpc.Client.Channels.{Channels, Io, ◌>>=◌, ◌>>◌, return, call, tell, is_aborted}
use zzrpc.Client.Aborter.{Handle, Aborter, aborter}

pub record Stream : Type 0 where
  pub id : ℕ
  pub receiver : Option ℕ
  pub handle : Handle
  pub open handle use *

unfoldable pub is_terminated : Stream → Bool
is_terminated me = not (is_some me.receiver)

module _ {R T E : Type 0} (c : Channels R T E) where
  abbrev Polled : Type 0
  Polled = Poll (Option T) × Stream

  -- `Stream::aborter`
  unfoldable pub aborter_of : Stream → Io c.World (Aborter × Stream)
  unfolding aborter
  aborter_of me = do (a, h) ← aborter c me.id me.handle; return (a, record me { handle = h })

  -- `receiver.take()` and `Ready(None)`
  unfoldable pub end_stream : Stream → ℕ → Io c.World Polled
  end_stream me ch = do
    tell (c.drop_receiver ch)
    return (ready none, record me { receiver = none })

  unfoldable pub after_poll : Stream → ℕ → Poll (Option T) → Io c.World Polled
  unfolding end_stream
  after_poll me ch (ready (some x)) = return (ready (some x), me)
  after_poll me ch (ready none) = end_stream me ch
  after_poll me ch pending = do
    aborted ← is_aborted c me.abort_receiver
    if aborted then end_stream me ch else return (pending, me)

  unfoldable pub poll_receiver : Stream → Option ℕ → Io c.World Polled
  unfolding after_poll
  poll_receiver me none = return (ready none, me)
  poll_receiver me (some ch) = do p ← call (c.poll_item ch); after_poll me ch p

  -- `Stream::poll_next`
  unfoldable pub poll_next : Stream → Io c.World Polled
  unfolding poll_receiver
  poll_next me = poll_receiver me me.receiver

  -- `Drop::drop`
  unfoldable pub drop : Stream → Io c.World (Unit {0})
  unfolding is_terminated
  drop me =
      if not (is_terminated me)
      then (do
        _ ←
            call
              (c.send_request (record { id = me.id; payload = Payload.abort }) ResultSender.abort)
        return tt)
      else return tt
