-- ===== src/Client/Sending.antt =====
-- zzrpc/src/consumer/value.rs and stream.rs: what the first poll of a future puts on the channel of
-- its method.
use zzrpc.Prelude.{ℕ, ◌+◌, ◌≡◌, refl, Bool, true, false, List, [], ◌∷◌, ◌++◌}
use zzrpc.Rpc.Timeout.{pending}
use zzrpc.Message.{Request, Payload, ResultSender}
use zzrpc.Client.Channels.{Channels}
use zzrpc.Client.Value
use zzrpc.Client.Stream

-- The number of the next channel, and what was sent on the channel of the method, in order.
pub record Wire (R : Type 0) : Type 0 where
  pub next : ℕ
  pub sent : List (Request R × ResultSender)

-- Channels that record what is sent on an open channel of a method. No receiver has anything yet.
abbrev pub recording : (R T E : Type 0) → Channels R T E
recording R T E = record {
  World = Wire R;
  oneshot = λ w. (w.next, record w { next = w.next + 1 });
  unbounded = λ w. (w.next, record w { next = w.next + 1 });
  send_request = λ m r w. (true, record w { sent = w.sent ++ (m, r) ∷ [] });
  poll_result = λ ch w. (pending, w);
  poll_open = λ ch w. (pending, w);
  poll_abort = λ ch w. (pending, w);
  poll_item = λ ch w. (pending, w);
  send_abort = λ ch w. w;
  drop_receiver = λ ch w. w;
}

-- What the first poll of a new future sends, of a `StreamRequest` or of a `ValueRequest`, when the
-- next channel has the number `n`.
unfoldable pub first_sent :
    {R : Type 0} → (T E : Type 0) → Bool → ℕ → R → ℕ → List (Request R × ResultSender)
unfolding Value.poll Value.new Stream.poll Stream.new
first_sent {R} T E false id request n =
    (Value.poll (recording R T E) (Value.new id request)
      (record { world = record { next = n; sent = [] }; cells = [] })).1.world.sent
first_sent {R} T E true id request n =
    (Stream.poll (recording R T E) (Stream.new id request)
      (record { world = record { next = n; sent = [] }; cells = [] })).1.world.sent

module _ {R : Type 0} (T E : Type 0) (id : ℕ) (request : R) (n : ℕ) where
  pub value-first_sent :
      first_sent T E false id request n
      ≡ (record { id = id; payload = Payload.request request }, ResultSender.value n) ∷ []
  unfolding first_sent
  value-first_sent = refl

  pub stream-first_sent :
      first_sent T E true id request n
      ≡ (record { id = id; payload = Payload.request request }, ResultSender.stream n (n + 1)) ∷ []
  unfolding first_sent
  stream-first_sent = refl
