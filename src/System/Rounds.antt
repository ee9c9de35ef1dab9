-- ===== src/System/Rounds.antt =====
-- The rounds of the consumer keep a request sound.
use zzrpc.Prelude.{
  ℕ, ◌≤◌, ◌≡◌, refl, sym, subst, inl, inr, total, true, false, not, ◌&&◌, ◌==◌, ==_iff, Bool-cases,
  Option, none, some, List, arith,
}
use zzrpc.Rpc.{HandlingStrategy, stop, ignore}
use zzrpc.Message.{Request, Response, StreamResponse, Message}
use zzrpc.Consumer.State
use zzrpc.Consumer.State.{Effect, send_message}
use zzrpc.Consumer.Take.{continue_}
use zzrpc.Consumer.Handle.{respond, method, idle}
use zzrpc.Consumer.Loop.{
  Event, Received, received, requested, timed_out, shut_down, consumer_dropped, Settings,
  after_error, step,
}
use zzrpc.Consumer.Routing.{stream_at, respond-frame}
use zzrpc.Consumer.Tables.{IsDistinct}
use zzrpc.Consumer.Waiting.{respond-waiting-le, respond-opened}
use zzrpc.System.{delivered, other_event}
use zzrpc.System.Counts.{
  First, nothing, closes, then_first, of_request, stage, waits, Orderly, stage_unheard,
}
use zzrpc.System.Network.{Orderly-le}

pub delivered-le :
    {R : Type 0} {E : Type 0} (j : ℕ) (m : Request R) (failure : Option E)
    → total (of_request j) (delivered m failure) ≤ of_request j m
delivered-le j m none = omega arith
delivered-le j m (some e) = omega arith

after_error-same :
    (R T E S : Type 0) (effects : List (Effect R T E)) (s : State.State)
    (answer : HandlingStrategy × S)
    → (after_error effects s answer).flow ≡ continue_
    → (after_error effects s answer).state ≡ s
unfolding after_error
after_error-same R T E S effects s (stop cause, cb) goes = cc
after_error-same R T E S effects s (ignore, cb) goes = refl

pub other-same :
    (R T E S : Type 0) (c : Settings E S) (cb : S) (s : State.State) (event : Event R T E)
    → other_event event ≡ true
    → (step c cb s event).flow ≡ continue_
    → (step c cb s event).state ≡ s
unfolding step
other-same R T E S c cb s (received none) h goes = cc
other-same R T E S c cb s (received (some (Received.err e))) h goes =
    after_error-same R T E S _ s (c.on_receive_error cb e) goes
other-same R T E S c cb s (received (some (Received.ok m))) h goes = cc
other-same R T E S c cb s (requested k none) h goes = refl
other-same R T E S c cb s (requested k (some x)) h goes = cc
other-same R T E S c cb s timed_out h goes = elim (Bool-cases (c.has_timeout && not (idle s))) [
  | inl e ↦ cc
  | inr e ↦ rw e refl
]
other-same R T E S c cb s (shut_down cause) h goes = cc
other-same R T E S c cb s consumer_dropped h goes = cc

pub stage-closes :
    (T : Type 0) (id i k : ℕ)
    → (i == k) ≡ true
    → stage id {T = T} k (Message.response id (Response.stream i StreamResponse.closed)) ≡ closes
stage-closes T id i k e = ground arith

stage-elsewhere :
    {T : Type 0} (id j k : ℕ) (r : Response T)
    → (method r == k) ≡ false
    → stage j k (Message.response id r) ≡ nothing
stage-elsewhere id j k (Response.value i x) e = refl
stage-elsewhere id j k (Response.stream i StreamResponse.open_) e = ground arith
stage-elsewhere id j k (Response.stream i StreamResponse.closed) e = ground arith
stage-elsewhere id j k (Response.stream i (StreamResponse.item x)) e = refl

closed-Orderly :
    (w w' n : ℕ) (f : First) → w' ≤ w → Orderly w n (then_first closes f) → Orderly w' n f
closed-Orderly w w' n f h (inl z) = inl (omega arith)
closed-Orderly w w' n f h (inr (inl z)) = cc
closed-Orderly w w' n f h (inr (inr (z, y))) = cc

module _ (R T E : Type 0) (s : State.State) (d : IsDistinct s) (k n : ℕ) (f : First) where
  abbrev Goes : ℕ → ℕ → Response T → Type 0
  Goes j id r =
      Orderly (waits j k s) n (then_first (stage j k (Message.response id r)) f)
      → Orderly (waits j k (respond {R = R} {T = T} {E = E} s id r).0) n f

  same-order :
      (j id : ℕ) (r : Response T)
      → stream_at (respond {R = R} {T = T} {E = E} s id r).0 k j ≡ stream_at s k j
      → stage j k (Message.response id r) ≡ nothing
      → Goes j id r
  same-order j id r e g o = rw e (rw g at o)

  self-order : (id : ℕ) (r : Response T) → (method r == k) ≡ true → Goes id id r
  self-order id (Response.value i x) e o =
      Orderly-le _ _ _ _ _ (respond-waiting-le R T E s id k (Response.value i x) d) (omega arith) o
  self-order id (Response.stream i (StreamResponse.item x)) e o =
      Orderly-le _ _ _ _ _
        (respond-waiting-le R T E s id k (Response.stream i (StreamResponse.item x)) d)
        (omega arith) o
  self-order id (Response.stream i StreamResponse.open_) e o = inl (
      subst
        (λ z.
          waits id k
            (respond {R = R} {T = T} {E = E} s id (Response.stream z StreamResponse.open_)).0
          ≡ 0)
        (sym ((==_iff i k).0 e)) (respond-opened R T E s id k))
  self-order id (Response.stream i StreamResponse.closed) e o =
      closed-Orderly _ _ _ _
        (respond-waiting-le R T E s id k (Response.stream i StreamResponse.closed) d)
        (rw (stage-closes T id i k e) at o)

  pub respond-order : (j id : ℕ) (r : Response T) → Goes j id r
  respond-order j id r = elim (Bool-cases (id == j)) [
    | inr ne ↦
        same-order j id r (respond-frame R T E s id r k j (inr ne)).1
          (stage_unheard j k (Message.response id r) (rw ne refl))
    | inl eq ↦ elim (Bool-cases (method r == k)) [
      | inr away ↦
          same-order j id r (respond-frame R T E s id r k j (inl away)).1
            (stage-elsewhere id j k r away)
      | inl here ↦ subst (λ z. Goes z id r) ((==_iff id j).0 eq) (self-order id r here)
    ]
  ]
