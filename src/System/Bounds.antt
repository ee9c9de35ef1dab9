-- ===== src/System/Bounds.antt =====
-- The counter of ids bounds what the consumer counts, so `pending` does not overflow.
use zzrpc.Prelude.{
  ℕ, ◌+◌, ◌<◌, ◌≤◌, ◌≡◌, refl, Bool, true, List, [], ◌∷◌, arith, total, total-append, usize_mod,
  none, some, Option,
}
use zzrpc.Rpc.{TransportError}
use zzrpc.Message.{Message, ResultSender}
use zzrpc.Consumer.State.{State}
use zzrpc.Consumer.Loop as Loop
use zzrpc.Consumer.Loop.{Event}
use zzrpc.Consumer.Fair.{brought_by, step-Fair}
use zzrpc.Consumer.Pending.{outstanding}
use zzrpc.Consumer.Conservation.{mass-new}
use zzrpc.Producer.Loop as Main
use zzrpc.System.{
  Sent, asks, aborts, System, call, poll, abort, take, receive, other, produce, produce_other,
  finish, open_stream, serve, end_stream, stop, forward, lose, Step, Reach, start, later,
  other_event, taken,
}
use zzrpc.System.Counts.{total-split}
use zzrpc.System.Idle.{idle_in_system}

abbrev pub request_count : {R : Type 0} → Sent R → ℕ
request_count (asks k id r sender) = 1
request_count (aborts k id) = 0

-- The calls whose requests the consumer has not taken yet.
abbrev pub untaken : {R T S P : Type 0} → System R T S P → ℕ
untaken s = total (λ f. 1) s.unsent + total request_count s.channel

abbrev IsBounded : {R T S P : Type 0} → System R T S P → Type 0
IsBounded s = outstanding s.consumer + untaken s ≤ s.next_id

-- A round adds at most the request that it takes.
round-outstanding :
    {R T E S : Type 0} (c : Loop.Settings E S) (cb : S) (s : State) (event : Event R T E)
    → outstanding (Loop.step c cb s event).state
      ≤ outstanding s + brought_by (λ _. 1) (λ _. 0) event
round-outstanding {R} {T} {E} {S} c cb s event =
    omega (arith, step-Fair (λ _. 1) (λ _. 0) R T E S c cb s event)

taken-brought :
    {R E : Type 0} (T : Type 0) (x : Sent R) (failure : Option (TransportError E))
    → brought_by (λ _. 1) (λ _. 0) {R = R} {T = T} {E = E} (taken x failure) ≤ request_count x
taken-brought T (asks k id r (ResultSender.value s)) failure = omega arith
taken-brought T (asks k id r (ResultSender.stream s i)) failure = omega arith
taken-brought T (asks k id r ResultSender.abort) failure = omega arith
taken-brought T (aborts k id) failure = omega arith

other-brought :
    {R T E : Type 0} (event : Event R T E)
    → other_event event ≡ true
    → brought_by (λ _. 1) (λ _. 0) event ≡ 0
other-brought (Loop.received o) h = refl
other-brought (Loop.requested k none) h = refl
other-brought (Loop.requested k (some x)) h = cc
other-brought Loop.timed_out h = refl
other-brought (Loop.shut_down cause) h = refl
other-brought Loop.consumer_dropped h = refl

-- The event that a message arrives.
abbrev heard : {R T E : Type 0} → Message T → Event R T E
heard m = Loop.received (some (Loop.Received.ok m))

module _ {R T E F S P : Type 0} (kinds : List Bool) (method_of : R → ℕ) (c : Loop.Settings E S)
    (d : Main.Settings F P) where
  Step-IsBounded : {s t : System R T S P} → Step kinds method_of c d s t → IsBounded s → IsBounded t
  Step-IsBounded {s} (call r less) b =
      omega (arith, total-append (λ f. 1) s.unsent ((s.next_id, r) ∷ []))
  Step-IsBounded {s} (poll n xs ys id r sender k e g h) b = omega (
    arith,
    total-split (λ f. 1) s.unsent xs (id, r) ys e,
    total-append request_count s.channel (asks (method_of r) id r sender ∷ []),
  )
  Step-IsBounded {s} (abort k id x e less) b =
      omega (arith, total-append request_count s.channel (aborts k id ∷ []))
  Step-IsBounded {s} (take xs ys x failure e first goes) b = omega (
    arith,
    total-split request_count s.channel xs x ys e,
    round-outstanding c s.callback s.consumer (taken {T = T} x failure),
    taken-brought T x failure,
  )
  Step-IsBounded {s} (receive m ms e goes) b =
      omega (arith, round-outstanding c s.callback s.consumer (heard {R = R} m))
  Step-IsBounded {s} (other event h goes) b =
      omega (arith, round-outstanding c s.callback s.consumer event, other-brought event h)
  Step-IsBounded (produce p m ms ch e g) b = b
  Step-IsBounded (produce_other p event e h) b = b
  Step-IsBounded (finish xs ys id k x e g) b = b
  Step-IsBounded (open_stream xs ys id k e g) b = b
  Step-IsBounded (serve xs ys id k x e) b = b
  Step-IsBounded (end_stream xs ys id k e) b = b
  Step-IsBounded (stop xs ys task e) b = b
  Step-IsBounded (forward m ms e) b = b
  Step-IsBounded (lose m ms e h) b = b

  module _ {cb : S} {its_cb : P} where
    Reach-IsBounded : {s : System R T S P} → Reach kinds method_of c d cb its_cb s → IsBounded s
    Reach-IsBounded start = omega (arith, mass-new (λ _. 1) (λ _. 0) kinds)
    Reach-IsBounded (later r step) = Step-IsBounded step (Reach-IsBounded r)

    -- In every state that the whole program can reach with below 2^64 calls, over a transport that
    -- keeps the order and loses no `Open`: `pending` and the number of requests that the consumer
    -- has yet to take are together at most the number of calls, and `pending` is the number of
    -- requests without an answer. So `pending += 1` does not overflow.
    pub pending_bounded :
        {s : System R T S P}
        → Reach kinds method_of c d cb its_cb s
        → s.next_id < usize_mod
        → (s.consumer.pending + untaken s ≤ s.next_id)
          × (s.consumer.pending ≡ outstanding s.consumer)
    pending_bounded {s} r less =
        let bound = Reach-IsBounded r in
        let exact = (idle_in_system kinds method_of c d r (omega arith)).0 in
        (omega (arith, exact), exact)
