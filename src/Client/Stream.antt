-- ===== src/Client/Stream.antt =====
-- zzrpc/src/consumer/stream.rs: `StreamRequest`, the future of a stream.
pub mod Items
pub mod Laws
pub mod Aborting
pub mod Drain
use zzrpc.Prelude.{ℕ, Bool, true, false, not, ◌&&◌, Option, none, some, is_some, if◌then◌else◌}
use zzrpc.Rpc.{Error}
use zzrpc.Rpc.Timeout.{Poll, ready, pending}
use zzrpc.Message.{Payload, Result, ResultSender}
use zzrpc.Client.Channels.{Channels, Io, ◌>>=◌, ◌>>◌, return, call, tell, drop_taken, is_aborted}
use zzrpc.Client.Aborter.{Handle, Aborter, aborter}
use Items.{Stream}

pub record StreamRequest (R : Type 0) : Type 0 where
  pub id : ℕ
  pub request : Option R
  pub result_receiver : Option ℕ
  pub values_receiver : Option ℕ
  pub handle : Handle
  pub open handle use *

abbrev pub no_handle : Handle
no_handle = record { aborter = none; abort_receiver = none }

unfoldable pub new : {R : Type 0} → ℕ → R → StreamRequest R
new id request = record {
  id = id;
  request = some request;
  result_receiver = none;
  values_receiver = none;
  handle = no_handle;
}

unfoldable pub is_terminated : {R : Type 0} → StreamRequest R → Bool
is_terminated me = not (is_some me.request) && not (is_some me.result_receiver)

module _ {R T E : Type 0} (c : Channels R T E) where
  abbrev Polled : Type 0
  Polled = Poll (Result Stream E) × StreamRequest R

  -- `StreamRequest::aborter`
  unfoldable pub aborter_of : StreamRequest R → Io c.World (Aborter × StreamRequest R)
  unfolding aborter
  aborter_of me = do (a, h) ← aborter c me.id me.handle; return (a, record me { handle = h })

  unfoldable pub give_up : StreamRequest R → Io c.World Polled
  give_up me = do
    drop_taken c me.result_receiver
    drop_taken c me.values_receiver
    return (
      ready (Result.err Error.aborted),
      record me { request = none; result_receiver = none; values_receiver = none },
    )

  -- `result.map(|_| Stream { .. }).map_err(|_| Dropped)` of what the oneshot receiver gave, in the
  -- first poll and in a later one. The stream takes the receiver of the items, the aborter and the
  -- abort receiver over.
  unfoldable pub conclude_first :
      StreamRequest R → (ch items : ℕ) → Option (Result (Unit {0}) E) → Io c.World Polled
  conclude_first me ch items (some result) = do
    tell (c.drop_receiver ch)
    return (
      ready (Result.ok (record { id = me.id; receiver = some items; handle = me.handle })),
      record me { request = none; result_receiver = none; handle = no_handle },
    )
  conclude_first me ch items none = do
    tell (c.drop_receiver items)
    drop_taken c me.values_receiver
    tell (c.drop_receiver ch)
    return (
      ready (Result.err Error.dropped),
      record me { request = none; result_receiver = none; values_receiver = none },
    )

  unfoldable pub conclude_later : StreamRequest R → Option (Result (Unit {0}) E) → Io c.World Polled
  conclude_later me (some result) = return (
    ready (Result.ok (record { id = me.id; receiver = me.values_receiver; handle = me.handle })),
    record me { result_receiver = none; values_receiver = none; handle = no_handle },
  )
  conclude_later me none = do
    drop_taken c me.values_receiver
    return (
      ready (Result.err Error.dropped),
      record me { result_receiver = none; values_receiver = none },
    )

  unfoldable pub first_result :
      StreamRequest R → (ch items : ℕ) → Poll (Option (Result (Unit {0}) E)) → Io c.World Polled
  unfolding conclude_first
  first_result me ch items (ready r) = do
    drop_taken c me.result_receiver
    conclude_first me ch items r
  first_result me ch items pending = do
    drop_taken c me.result_receiver
    drop_taken c me.values_receiver
    return (
      pending,
      record me { request = none; result_receiver = some ch; values_receiver = some items },
    )

  unfoldable pub after_send : StreamRequest R → (ch items : ℕ) → Bool → Io c.World Polled
  unfolding first_result
  after_send me ch items true = do p ← call (c.poll_open ch); first_result me ch items p
  after_send me ch items false = do
    drop_taken c me.result_receiver
    tell (c.drop_receiver items)
    tell (c.drop_receiver ch)
    return (ready (Result.err Error.shutdown), record me { request = none; result_receiver = none })

  -- The first poll sends the request.
  unfoldable pub send_first : StreamRequest R → R → Io c.World Polled
  unfolding after_send
  send_first me request = do
    ch ← call c.oneshot
    items ← call c.unbounded
    sent ← call (
        c.send_request (record { id = me.id; payload = Payload.request request })
          (ResultSender.stream ch items))
    after_send me ch items sent

  unfoldable pub next_result :
      StreamRequest R → ℕ → Poll (Option (Result (Unit {0}) E)) → Io c.World Polled
  unfolding conclude_later
  next_result me ch (ready r) = do tell (c.drop_receiver ch); conclude_later me r
  next_result me ch pending = return (pending, me)

  unfoldable pub resume : StreamRequest R → Option R → Option ℕ → Io c.World Polled
  unfolding send_first next_result
  resume me (some request) receiver = send_first me request
  resume me none (some ch) = do p ← call (c.poll_open ch); next_result me ch p
  resume me none none = return (pending, me)

  -- `Future::poll`
  unfoldable pub poll : StreamRequest R → Io c.World Polled
  unfolding give_up resume
  poll me = do
    aborted ← is_aborted c me.abort_receiver
    if aborted then give_up me else resume me me.request me.result_receiver

  -- `PinnedDrop::drop`
  unfoldable pub drop : StreamRequest R → Io c.World (Unit {0})
  unfolding is_terminated
  drop me =
      if not (is_terminated me)
      then (do
        _ ←
            call
              (c.send_request (record { id = me.id; payload = Payload.abort }) ResultSender.abort)
        return tt)
      else return tt
