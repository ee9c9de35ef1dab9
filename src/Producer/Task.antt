-- ===== src/Producer/Task.antt =====
-- zzrpc-derive/src/lib.rs, `impl_produce`: the task that is spawned for a request. A round of its
-- `select!` is an event: the method's future or stream gave something, or the abort receiver
-- resolved, by an abort or because its sender was dropped.
use zzrpc.Prelude.{ℕ, Bool, true, false, Option, none, some, List, [], ◌∷◌}
use zzrpc.Message.{Response, StreamResponse, Message}

pub data TaskEffect (T : Type 0) : Type 0 where
  reply : Message T → TaskEffect T  -- `reply_sender.unbounded_send`
  remove_aborter : (id : ℕ) → TaskEffect T  -- `remove_aborter_sender.unbounded_send`

pub data ValueEvent (T : Type 0) : Type 0 where
  finished : T → ValueEvent T
  aborted : ValueEvent T

pub data StreamEvent (T : Type 0) : Type 0 where
  next : Option T → StreamEvent T
  aborted : StreamEvent T

module _ {T : Type 0} (id k : ℕ) where
  -- The task of a value method, the `k`-th of the api.
  unfoldable pub value_task : ValueEvent T → List (TaskEffect T)
  value_task (ValueEvent.finished result) =
      reply (Message.response id (Response.value k result)) ∷ remove_aborter id ∷ []
  value_task ValueEvent.aborted = []

  abbrev pub stream_reply : StreamResponse T → TaskEffect T
  stream_reply response = reply (Message.response id (Response.stream k response))

  -- The loop of the task of a stream method, with whether it was left.
  unfoldable pub stream_loop : List (StreamEvent T) → List (TaskEffect T) × Bool
  stream_loop [] = ([], false)
  stream_loop (StreamEvent.next (some x) ∷ events) =
      let (effects, ended) = stream_loop events in
      (stream_reply (StreamResponse.item x) ∷ effects, ended)
  stream_loop (StreamEvent.next none ∷ events) =
      (stream_reply StreamResponse.closed ∷ remove_aborter id ∷ [], true)
  stream_loop (StreamEvent.aborted ∷ events) = ([], true)

  -- The task of a stream method: the stream is opened first.
  unfoldable pub stream_task : List (StreamEvent T) → List (TaskEffect T) × Bool
  stream_task events =
      let (effects, ended) = stream_loop events in
      (stream_reply StreamResponse.open_ ∷ effects, ended)
