-- ===== src/System/Idle.antt =====
-- What the protocol grants holds in the system, so `idle` tells the truth there.
use zzrpc.Prelude.{
  ℕ, ◌<◌, ◌≡◌, ◌↔◌, inl, inr, one, Bool, true, none, some, List, ◌∷◌, ◌++◌, arith, get_elem?,
  usize_mod,
}
use zzrpc.Message.{Response, StreamResponse, Message, ResultSender}
use zzrpc.Consumer.State
use zzrpc.Consumer.State.{Slot, values, streams}
use zzrpc.Consumer.Handle.{method, idle}
use zzrpc.Consumer.Loop
use zzrpc.Consumer.Loop.{
  received, requested, timed_out, shut_down, consumer_dropped, Received, step,
}
use zzrpc.Consumer.Pending as Pending
use zzrpc.Consumer.Pending.{outstanding, RespondFits, RequestFits, EventFits, Reach-idle}
use zzrpc.Consumer.Unused.{Unused}
use zzrpc.Producer.Loop as Main
use zzrpc.System.{
  Sent, asks, aborts, message_of, sender_of, channel_of, System, take, receive, other, Reach, start,
  later, other_event, taken,
}
use zzrpc.System.Counts.{
  First, nothing, closes, then_first, of_sent, first, served, waits, Orderly, IsSound, total-split,
}
use zzrpc.System.Rounds.{stage-closes}
use zzrpc.System.Sound.{Reach-IsSound}

other-EventFits :
    (R T E : Type 0) (s : State.State) (event : Loop.Event R T E)
    → other_event event ≡ true
    → EventFits s event
other-EventFits R T E s (received none) h = tt
other-EventFits R T E s (received (some (Received.err e))) h = tt
other-EventFits R T E s (received (some (Received.ok m))) h = cc
other-EventFits R T E s (requested k none) h = tt
other-EventFits R T E s (requested k (some x)) h = cc
other-EventFits R T E s timed_out h = tt
other-EventFits R T E s (shut_down cause) h = tt
other-EventFits R T E s consumer_dropped h = tt

Unused-RequestFits :
    (id k : ℕ) (s : State.State) (sender : ResultSender) (slot : Slot)
    → Unused id s
    → get_elem? s.slots k ≡ some slot
    → RequestFits slot id sender
Unused-RequestFits id k s (ResultSender.value x) (values t) u e = rw e at (u k).0
Unused-RequestFits id k s (ResultSender.value x) (streams t) u e = tt
Unused-RequestFits id k s (ResultSender.stream x items) (values t) u e = tt
Unused-RequestFits id k s (ResultSender.stream x items) (streams t) u e = rw e at (u k).1
Unused-RequestFits id k s ResultSender.abort (values t) u e = tt
Unused-RequestFits id k s ResultSender.abort (streams t) u e = tt

closed-waits : (w n : ℕ) (f : First) → Orderly w n (then_first closes f) → w ≡ 0
closed-waits w n f (inl e) = e
closed-waits w n f (inr (inl e)) = cc
closed-waits w n f (inr (inr (e, z))) = cc

module _ {R T E F S P : Type 0} (kinds : List Bool) (method_of : R → ℕ) (c : Loop.Settings E S)
    (d : Main.Settings F P) where
  take-EventFits :
      (s : System R T S P) (xs ys : List (Sent R)) (x : Sent R)
      → s.channel ≡ xs ++ x ∷ ys
      → ((j : ℕ) → IsSound j 0 s)
      → (slot : Slot) → get_elem? s.consumer.slots (channel_of x) ≡ some slot
      → RequestFits slot (message_of x).id (sender_of x)
  take-EventFits s xs ys (asks i id r sender) e sound slot h =
      let left = total-split (of_sent id) s.channel xs (asks i id r sender) ys e in
      let here : one id id ≡ 1 = ground arith in
      Unused-RequestFits id i s.consumer sender slot ((sound id).unused (inr (omega arith))) h
  take-EventFits s xs ys (aborts i id) e sound (values t) h = tt
  take-EventFits s xs ys (aborts i id) e sound (streams t) h = tt

  receive-EventFits :
      (s : System R T S P) (id : ℕ) (r : Response T) (ms : List (Message T))
      → s.to_consumer ≡ Message.response id r ∷ ms
      → IsSound id (method r) s
      → (slot : Slot) → get_elem? s.consumer.slots (method r) ≡ some slot
      → RespondFits slot id r
  receive-EventFits s id (Response.stream i StreamResponse.closed) ms e sound (streams t) h =
      rw h at (
        closed-waits (waits id i s.consumer) (served id i s) nothing
          (rw (e, stage-closes T id i i (ground arith)) at sound.order))
  receive-EventFits s id (Response.stream i StreamResponse.closed) ms e sound (values t) h = tt
  receive-EventFits s id (Response.stream i StreamResponse.open_) ms e sound (streams t) h = tt
  receive-EventFits s id (Response.stream i StreamResponse.open_) ms e sound (values t) h = tt
  receive-EventFits s id (Response.stream i (StreamResponse.item x)) ms e sound (streams t) h = tt
  receive-EventFits s id (Response.stream i (StreamResponse.item x)) ms e sound (values t) h = tt
  receive-EventFits s id (Response.value i x) ms e sound (streams t) h = tt
  receive-EventFits s id (Response.value i x) ms e sound (values t) h = tt

  module _ {cb : S} {its_cb : P} where
    -- The consumer of the system is one of a loop for which the protocol's promises hold.
    consumer-Reach :
        {s : System R T S P}
        → Reach kinds method_of c d cb its_cb s
        → Pending.Reach R T c cb kinds s.callback s.consumer
    consumer-Reach start = Pending.start
    consumer-Reach (later {s} r (take xs ys x failure e first goes)) =
        Pending.later (taken x failure) (consumer-Reach r)
          (take-EventFits s xs ys x e (λ j. Reach-IsSound kinds method_of c d j 0 r)) goes
    consumer-Reach (later {s} r (receive (Message.response id m) ms e goes)) =
        Pending.later (received (some (Received.ok (Message.response id m)))) (consumer-Reach r)
          (receive-EventFits s id m ms e (Reach-IsSound kinds method_of c d id (method m) r)) goes
    consumer-Reach (later {s} r (receive Message.aborted ms e goes)) =
        Pending.later (received (some (Received.ok Message.aborted))) (consumer-Reach r) tt goes
    consumer-Reach (later {s} r (receive Message.shutdown ms e goes)) =
        Pending.later (received (some (Received.ok Message.shutdown))) (consumer-Reach r) tt goes
    consumer-Reach (later {s} r (other event h goes)) =
        Pending.later event (consumer-Reach r) (other-EventFits R T E s.consumer event h) goes
    consumer-Reach (later r _) = consumer-Reach r

    -- In every state that the whole program can reach, whatever order its parts take their steps
    -- in, with below 2^64 calls and over a transport that keeps the order and loses no `Open`:
    -- `pending` is the number of requests without an answer while there are fewer than `usize`
    -- can count, and `idle` holds exactly when there is none.
    pub idle_in_system :
        {s : System R T S P}
        → Reach kinds method_of c d cb its_cb s
        → outstanding s.consumer < usize_mod
        → (s.consumer.pending ≡ outstanding s.consumer)
          × ((idle s.consumer ≡ true) ↔ (outstanding s.consumer ≡ 0))
    idle_in_system r small = Reach-idle (consumer-Reach r) small
