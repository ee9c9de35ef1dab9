-- ===== src/Client/Aborter.antt =====
-- zzrpc/src/consumer/mod.rs: `Aborter`, and the `aborter` methods of the requests and streams that
-- make one on first use.
use zzrpc.Prelude.{ℕ, Option, none, some}
use zzrpc.Message.{Payload, ResultSender}
use zzrpc.Client.Channels.{
  Channels, Io, ◌>>=◌, ◌>>◌, return, call, tell, new_cell, take_cell, drop_taken,
}

-- The clones of an aborter share the cell.
pub record Aborter : Type 0 where
  pub id : ℕ
  pub cell : ℕ

-- The fields that the `aborter` methods use.
pub record Handle : Type 0 where
  pub aborter : Option Aborter
  pub abort_receiver : Option ℕ

module _ {R T E : Type 0} (c : Channels R T E) where
  unfoldable pub send_both : Aborter → Option ℕ → Io c.World (Unit {0})
  send_both a none = return tt
  send_both a (some sender) = do
    _ ← call (c.send_request (record { id = a.id; payload = Payload.abort }) ResultSender.abort)
    tell (c.send_abort sender)

  -- `Aborter::abort`
  unfoldable pub abort : Aborter → Io c.World (Unit {0})
  unfolding send_both
  abort a = do sender ← take_cell a.cell; send_both a sender

  unfoldable pub make_aborter : ℕ → Handle → Io c.World (Aborter × Handle)
  make_aborter id h = do
    ch ← call c.oneshot
    drop_taken c h.abort_receiver
    cell ← new_cell ch
    let a : Aborter = record { id = id; cell = cell }
    return (a, record { aborter = some a; abort_receiver = some ch })

  -- `aborter`: `get_or_insert_with` and `clone`
  unfoldable pub aborter : ℕ → Handle → Io c.World (Aborter × Handle)
  unfolding make_aborter
  aborter id h = elim h.aborter [ some a ↦ return (a, h) | none ↦ make_aborter id h ]
