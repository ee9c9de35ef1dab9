-- ===== src/System/Sound.antt =====
-- Every step of the system keeps all requests sound.
use zzrpc.Prelude.{
  ℕ, ◌+◌, ◌≤◌, ◌≡◌, ◌⊎◌, refl, inl, inr, ap, one, total, Bool, true, none, some, List, [], ◌∷◌,
  ◌++◌, arith,
}
use zzrpc.Message.{Payload, Message}
use zzrpc.Consumer.State.{send_message}
use zzrpc.Consumer.Handle.{handle_message}
use zzrpc.Consumer.Loop
use zzrpc.Consumer.Loop.{received, Received, step, reset_if}
use zzrpc.Consumer.Unused.{Unused, new-Unused}
use zzrpc.Consumer.Tables.{IsDistinct, new-IsDistinct, respond-IsDistinct, take_request-IsDistinct}
use zzrpc.Producer.Loop as Main
use zzrpc.Producer.Requests as Requests
use zzrpc.System.{
  message_of, sender_of, channel_of, System, Step, call, poll, abort, take, receive, other, produce,
  produce_other, finish, open_stream, serve, end_stream, stop, forward, lose, Reach, start, later,
  other_main_event,
}
use zzrpc.System.Counts.{
  of_payload, of_request, early, live, served, heard, waits, first_said, Orderly, IsSound,
}
use zzrpc.System.Network.{
  call-IsSound, poll-IsSound, abort-IsSound, stop-IsSound, forward-IsSound, lose-IsSound, zero-or,
}
use zzrpc.System.Tasks.{finish-IsSound, serve-IsSound, end-IsSound, open-IsSound, round-IsSound}
use zzrpc.System.Rounds.{other-same}
use zzrpc.System.Consuming.{receive-IsSound, other-IsSound, take-IsSound}

requests-total :
    {R : Type 0} (j id : ℕ) (p : Payload R)
    → total (λ r. one j r.0) (Requests.asked id p) ≡ of_payload j id p
requests-total j id (Payload.request r) = omega arith
requests-total j id Payload.abort = refl

pub requests-none :
    (R F : Type 0) (event : Main.Event R F)
    → other_main_event event ≡ true
    → Requests.requests_of event ≡ []
requests-none R F (Main.received none) h = refl
requests-none R F (Main.received (some (Main.Received.err e))) h = refl
requests-none R F (Main.received (some (Main.Received.ok m ch))) h = cc
requests-none R F (Main.removed o) h = refl
requests-none R F Main.timed_out h = refl
requests-none R F (Main.stopped o) h = refl
requests-none R F (Main.shut_down cause) h = refl

module _ {R T E F S P : Type 0} (kinds : List Bool) (method_of : R → ℕ) (c : Loop.Settings E S)
    (d : Main.Settings F P) where
  Step-IsDistinct :
      {s t : System R T S P}
      → Step kinds method_of c d s t
      → IsDistinct s.consumer
      → IsDistinct t.consumer
  unfolding step handle_message
  Step-IsDistinct {s} (take xs ys x failure e first goes) i =
      take_request-IsDistinct R T E S s.callback
        (reset_if c.has_timeout ++ send_message (message_of x) ∷ []) s.consumer (channel_of x)
        (record { message = message_of x; result_sender = sender_of x; failure = failure }) i
  Step-IsDistinct {s} (receive (Message.response id r) ms e goes) i =
      respond-IsDistinct R T E s.consumer id r i
  Step-IsDistinct (receive Message.aborted ms e goes) i = cc
  Step-IsDistinct (receive Message.shutdown ms e goes) i = cc
  Step-IsDistinct {s} (other event h goes) i =
      rw (other-same R T E S c s.callback s.consumer event h goes) i
  Step-IsDistinct _ i = i

  Step-IsSound :
      {s t : System R T S P} (j k : ℕ)
      → Step kinds method_of c d s t
      → IsDistinct s.consumer
      → IsSound j k s
      → IsSound j k t
  Step-IsSound {s} j k (call r small) i sound = call-IsSound j k s r sound
  Step-IsSound {s} j k (poll n xs ys id r sender b e at fits) i sound =
      poll-IsSound j k s xs ys id (method_of r) r sender e sound
  Step-IsSound {s} j k (abort m id b at old) i sound = abort-IsSound j k s m id sound
  Step-IsSound {s} j k (take xs ys x failure e first goes) i sound =
      take-IsSound j k c s xs ys x failure e i sound
  Step-IsSound {s} j k (receive m ms e goes) i sound = receive-IsSound j k c s m ms e goes i sound
  Step-IsSound {s} j k (other event h goes) i sound = other-IsSound j k c s event h goes sound
  Step-IsSound {s} j k (produce p m ms ch on e) i sound =
      round-IsSound j k F method_of s
        (Main.step d s.its_callback p (Main.received (some (Main.Received.ok m ch))))
        (Requests.asked m.id m.payload) ms
        (Requests.step-Tells R T F P d s.its_callback p
          (Main.received (some (Main.Received.ok m ch))))
        (omega (arith, ap (total (of_request j)) e, requests-total j m.id m.payload)) sound
  Step-IsSound {s} j k (produce_other p event on h) i sound =
      round-IsSound j k F method_of s (Main.step d s.its_callback p event)
        (Requests.requests_of event) s.to_producer
        (Requests.step-Tells R T F P d s.its_callback p event)
        (rw (requests-none R F event h) (omega arith)) sound
  Step-IsSound {s} j k (finish xs ys id m x e at) i sound =
      finish-IsSound j k s xs ys id m x e sound
  Step-IsSound {s} j k (open_stream xs ys id m e at) i sound = open-IsSound j k s xs ys id m e sound
  Step-IsSound {s} j k (serve xs ys id m x e) i sound = serve-IsSound j k s xs ys id m x e sound
  Step-IsSound {s} j k (end_stream xs ys id m e) i sound = end-IsSound j k s xs ys id m e sound
  Step-IsSound {s} j k (stop xs ys task e) i sound = stop-IsSound j k s xs ys task e sound
  Step-IsSound {s} j k (forward m ms e) i sound = forward-IsSound j k s m ms e sound
  Step-IsSound {s} j k (lose m ms e h) i sound = lose-IsSound j k s m ms e h sound

  module _ {cb : S} {its_cb : P} where
    pub Reach-IsDistinct :
        {s : System R T S P} → Reach kinds method_of c d cb its_cb s → IsDistinct s.consumer
    Reach-IsDistinct start = new-IsDistinct kinds
    Reach-IsDistinct (later r x) = Step-IsDistinct x (Reach-IsDistinct r)

    pub Reach-IsSound :
        {s : System R T S P} (j k : ℕ) → Reach kinds method_of c d cb its_cb s → IsSound j k s
    Reach-IsSound j k start = record {
      used = λ q. refl;
      unused = λ q. new-Unused j R T E kinds;
      once = omega arith;
      silent = λ q. refl;
      order = inr (inr (refl, refl));
    }
    Reach-IsSound j k (later r x) = Step-IsSound j k x (Reach-IsDistinct r) (Reach-IsSound j k r)

    -- In every state that the whole program can reach, with below 2^64 calls and over a transport
    -- that keeps the order and loses no `Open`: a request is in one place at most, at its future,
    -- on the way to the producer, or at a task. The consumer is told nothing of it before its task
    -- opened its stream or finished. If the consumer waits for a stream to open, then of the
    -- messages on their way none closes the stream before one opens it, and a task that has opened
    -- it has said so.
    pub one_place :
        {s : System R T S P} (j k : ℕ)
        → Reach kinds method_of c d cb its_cb s
        → (early j s + live j s ≤ 1)
          × ((early j s ≡ 0) ⊎ (heard j s ≡ 0))
          × Orderly (waits j k s.consumer) (served j k s) (first_said j k s)
    one_place {s} j k r =
        let sound = Reach-IsSound j k r in
        (
          sound.once,
          elim (zero-or (early j s)) [ inl e ↦ inl e | inr le ↦ inr (sound.silent le) ],
          sound.order,
        )

    -- In every such state an id that no call has had yet is nowhere: no future, no request or
    -- response on its way and no task has it, and no table of the consumer.
    fresh_id :
        {s : System R T S P} (j : ℕ)
        → Reach kinds method_of c d cb its_cb s
        → s.next_id ≤ j
        → (early j s + live j s + heard j s ≡ 0) × Unused j s.consumer
    fresh_id {s} j r le = let sound = Reach-IsSound j 0 r in (sound.used le, sound.unused (inl le))
