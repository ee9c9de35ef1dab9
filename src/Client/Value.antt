-- ===== src/Client/Value.antt =====
-- zzrpc/src/consumer/value.rs: `ValueRequest`.
pub mod Laws
pub mod Sends
use zzrpc.Prelude.{ℕ, Bool, true, false, not, ◌&&◌, Option, none, some, is_some, if◌then◌else◌}
use zzrpc.Rpc.{Error}
use zzrpc.Rpc.Timeout.{Poll, ready, pending}
use zzrpc.Message.{Payload, Result, ResultSender}
use zzrpc.Client.Channels.{Channels, Io, ◌>>=◌, ◌>>◌, return, call, tell, drop_taken, is_aborted}
use zzrpc.Client.Aborter.{Handle, Aborter, aborter}

pub record ValueRequest (R : Type 0) : Type 0 where
  pub id : ℕ
  pub request : Option R
  pub receiver : Option ℕ
  pub handle : Handle
  pub open handle use *

unfoldable pub new : {R : Type 0} → ℕ → R → ValueRequest R
new id request = record {
  id = id;
  request = some request;
  receiver = none;
  handle = record { aborter = none; abort_receiver = none };
}

unfoldable pub is_terminated : {R : Type 0} → ValueRequest R → Bool
is_terminated me = not (is_some me.request) && not (is_some me.receiver)

-- `result.map_err(|_| Dropped)?` of what the oneshot receiver gave.
abbrev pub answer : {T E : Type 0} → Option (Result T E) → Result T E
answer none = Result.err Error.dropped
answer (some r) = r

module _ {R T E : Type 0} (c : Channels R T E) where
  abbrev Polled : Type 0
  Polled = Poll (Result T E) × ValueRequest R

  -- `ValueRequest::aborter`
  unfoldable pub aborter_of : ValueRequest R → Io c.World (Aborter × ValueRequest R)
  unfolding aborter
  aborter_of me = do (a, h) ← aborter c me.id me.handle; return (a, record me { handle = h })

  -- The fields after a return with `Ready`.
  abbrev finished : ValueRequest R → ValueRequest R
  finished me = record me { request = none; receiver = none }

  unfoldable pub give_up : ValueRequest R → Io c.World Polled
  give_up me = do drop_taken c me.receiver; return (ready (Result.err Error.aborted), finished me)

  unfoldable pub first_result : ValueRequest R → ℕ → Poll (Option (Result T E)) → Io c.World Polled
  first_result me ch (ready r) = do
    drop_taken c me.receiver
    tell (c.drop_receiver ch)
    return (ready (answer r), finished me)
  first_result me ch pending = do
    drop_taken c me.receiver
    return (pending, record me { request = none; receiver = some ch })

  unfoldable pub after_send : ValueRequest R → ℕ → Bool → Io c.World Polled
  unfolding first_result
  after_send me ch true = do p ← call (c.poll_result ch); first_result me ch p
  after_send me ch false = do
    drop_taken c me.receiver
    tell (c.drop_receiver ch)
    return (ready (Result.err Error.shutdown), finished me)

  -- The first poll sends the request.
  unfoldable pub send_first : ValueRequest R → R → Io c.World Polled
  unfolding after_send
  send_first me request = do
    ch ← call c.oneshot
    sent ← call (
        c.send_request (record { id = me.id; payload = Payload.request request })
          (ResultSender.value ch))
    after_send me ch sent

  unfoldable pub next_result : ValueRequest R → ℕ → Poll (Option (Result T E)) → Io c.World Polled
  next_result me ch (ready r) = do tell (c.drop_receiver ch); return (ready (answer r), finished me)
  next_result me ch pending = return (pending, me)

  unfoldable pub resume : ValueRequest R → Option R → Option ℕ → Io c.World Polled
  unfolding send_first next_result
  resume me (some request) receiver = send_first me request
  resume me none (some ch) = do p ← call (c.poll_result ch); next_result me ch p
  resume me none none = return (pending, me)

  -- `Future::poll`
  unfoldable pub poll : ValueRequest R → Io c.World Polled
  unfolding give_up resume
  poll me = do
    aborted ← is_aborted c me.abort_receiver
    if aborted then give_up me else resume me me.request me.receiver

  -- `PinnedDrop::drop`
  unfoldable pub drop : ValueRequest R → Io c.World (Unit {0})
  unfolding is_terminated
  drop me =
      if not (is_terminated me)
      then (do
        _ ←
            call
              (c.send_request (record { id = me.id; payload = Payload.abort }) ResultSender.abort)
        return tt)
      else return tt
