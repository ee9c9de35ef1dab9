-- ===== src/Client/Stream/Laws.antt =====
-- What a stream request answers, and how the stream ends.
use zzrpc.Prelude.{ℕ, ◌≡◌, refl, inl, inr, Bool, true, false, Option, none, some, Bool-cases, arith}
use zzrpc.Rpc.Timeout.{Poll, ready, pending}
use zzrpc.Message.{Result}
use zzrpc.Client.Channels.{Channels, Store, call, is_aborted}
use zzrpc.Client.Stream.{
  StreamRequest, is_terminated, poll, first_result, after_send, next_result, resume, drop,
}
use zzrpc.Client.Stream.Items
use zzrpc.Client.Stream.Items.{Stream}

is_terminated-of :
    {R : Type 0} (me : StreamRequest R)
    → me.request ≡ none
    → me.result_receiver ≡ none
    → is_terminated me ≡ true
unfolding is_terminated
is_terminated-of me e f = ground arith

module _ {R T E : Type 0} (c : Channels R T E) where
  drop-is_terminated :
      (me : StreamRequest R) (t : Store c.World) → is_terminated me ≡ true → drop c me t ≡ (tt, t)
  unfolding drop
  drop-is_terminated me t e = rw e

  abbrev Settled : Poll (Result Stream E) × StreamRequest R → Type 0
  Settled (ready r, me) = (me.request ≡ none) × (me.result_receiver ≡ none)
  Settled (pending, me) = me.request ≡ none

  first_result-Settled :
      (me : StreamRequest R) (ch items : ℕ) (p : Poll (Option (Result (Unit {0}) E)))
      (s : Store c.World)
      → Settled (first_result c me ch items p s).0
  unfolding first_result
  first_result-Settled me ch items (ready none) s = (refl, refl)
  first_result-Settled me ch items (ready (some r)) s = (refl, refl)
  first_result-Settled me ch items pending s = refl

  after_send-Settled :
      (me : StreamRequest R) (ch items : ℕ) (sent : Bool) (s : Store c.World)
      → Settled (after_send c me ch items sent s).0
  unfolding after_send
  after_send-Settled me ch items true s = first_result-Settled me ch items _ _
  after_send-Settled me ch items false s = (refl, refl)

  next_result-Settled :
      (me : StreamRequest R) (ch : ℕ) (p : Poll (Option (Result (Unit {0}) E))) (s : Store c.World)
      → me.request ≡ none
      → Settled (next_result c me ch p s).0
  unfolding next_result
  next_result-Settled me ch (ready none) s e = (e, refl)
  next_result-Settled me ch (ready (some r)) s e = (e, refl)
  next_result-Settled me ch pending s e = e

  resume-Settled :
      (me : StreamRequest R) (request : Option R) (receiver : Option ℕ) (s : Store c.World)
      → me.request ≡ request
      → Settled (resume c me request receiver s).0
  unfolding resume
  resume-Settled me (some request) receiver s e = after_send-Settled me _ _ _ _
  resume-Settled me none (some ch) s e = next_result-Settled me ch _ _ e
  resume-Settled me none none s e = e

  poll-Settled : (me : StreamRequest R) (s : Store c.World) → Settled (poll c me s).0
  unfolding poll
  poll-Settled me s = elim (Bool-cases (is_aborted c me.abort_receiver s).0) [
    | inl e ↦ rw e (refl, refl)
    | inr e ↦
        rw e (
          resume-Settled me me.request me.result_receiver (is_aborted c me.abort_receiver s).1 refl)
  ]

  -- After any poll the request is gone, so no later poll sends it again. Once a poll is ready the
  -- future is terminated, and its drop sends no abort and changes nothing.
  pub stream-poll-finishes :
      (me : StreamRequest R) (s : Store c.World)
      → let (answered, me') = (poll c me s).0 in
        (me'.request ≡ none)
        × ((r : Result Stream E)
            → answered ≡ ready r
            → (is_terminated me' ≡ true) × ((t : Store c.World) → drop c me' t ≡ (tt, t)))
  stream-poll-finishes me s = finishes (poll c me s).0 (poll-Settled me s)
    where
      finishes :
          (p : Poll (Result Stream E) × StreamRequest R)
          → Settled p
          → (p.1.request ≡ none)
            × ((r : Result Stream E)
                → p.0 ≡ ready r
                → (is_terminated p.1 ≡ true) × ((t : Store c.World) → drop c p.1 t ≡ (tt, t)))
      finishes (ready r, me) f =
          (f.0, λ r' e. let d = is_terminated-of me f.0 f.1 in (d, λ t. drop-is_terminated me t d))
      finishes (pending, me) f = (f, λ r' e. cc)

  next_result-stream :
      (me : StreamRequest R) (ch : ℕ) (p : Poll (Option (Result (Unit {0}) E))) (s : Store c.World)
      (result : Result (Unit {0}) E)
      → p ≡ ready (some result)
      → (next_result c me ch p s).0.0
        ≡ ready
            (Result.ok (record { id = me.id; receiver = me.values_receiver; handle = me.handle }))
  unfolding next_result
  next_result-stream me ch (ready (some r)) s result e = refl
  next_result-stream me ch (ready none) s result e = cc
  next_result-stream me ch pending s result e = cc

  -- Whatever answer a waiting stream request gets, an error too, its poll returns a stream: the one
  -- over the receiver of its items. So `Closed`, `Aborted`, `Shutdown`, `Timeout` and transport
  -- errors do not reach the caller.
  pub stream-poll-ignores_error :
      (me : StreamRequest R) (ch : ℕ) (s : Store c.World) (result : Result (Unit {0}) E)
      → me.request ≡ none
      → me.result_receiver ≡ some ch
      → (is_aborted c me.abort_receiver s).0 ≡ false
      → (c.poll_open ch (is_aborted c me.abort_receiver s).1.world).0 ≡ ready (some result)
      → (poll c me s).0.0
        ≡ ready
            (Result.ok (record { id = me.id; receiver = me.values_receiver; handle = me.handle }))
  unfolding poll
  stream-poll-ignores_error me ch s result e f n got =
      simp (n, e, f)
        (next_result-stream me ch _ (call (c.poll_open ch) (is_aborted c me.abort_receiver s).1).1
          result got)

  after_poll-outcome :
      (me : Stream) (ch : ℕ) (got : Poll (Option T)) (t : Store c.World)
      → let (given, me') = (Items.after_poll c me ch got t).0 in
        ((x : T) → got ≡ ready (some x) → (given ≡ ready (some x)) × (me' ≡ me))
        × (got ≡ ready none → (given ≡ ready none) × (Items.is_terminated me' ≡ true))
        × (got ≡ pending
            → (is_aborted c me.abort_receiver t).0 ≡ true
            → (given ≡ ready none) × (Items.is_terminated me' ≡ true))
        × (got ≡ pending
            → (is_aborted c me.abort_receiver t).0 ≡ false
            → (given ≡ pending) × (me' ≡ me))
  unfolding Items.after_poll Items.is_terminated
  after_poll-outcome me ch (ready (some y)) t = (λ x e. (cc, refl), λ e. cc, λ e. cc, λ e. cc)
  after_poll-outcome me ch (ready none) t = (λ x e. cc, λ e. (refl, refl), λ e. cc, λ e. cc)
  after_poll-outcome me ch pending t =
      (λ x e. cc, λ e. cc, λ e a. rw a (refl, refl), λ e a. rw a (refl, refl))

  -- An item that was received is given also after an abort; the stream ends, for good, when the
  -- channel of the items has ended or when it is empty and the abort has arrived; otherwise the
  -- stream waits and stays as it is.
  pub poll_next-outcome :
      (me : Stream) (ch : ℕ) (s : Store c.World)
      → me.receiver ≡ some ch
      → let (got, w) = c.poll_item ch s.world in
        let t = record s { world = w } in
        let (given, me') = (Items.poll_next c me s).0 in
        ((x : T) → got ≡ ready (some x) → (given ≡ ready (some x)) × (me' ≡ me))
        × (got ≡ ready none → (given ≡ ready none) × (Items.is_terminated me' ≡ true))
        × (got ≡ pending
            → (is_aborted c me.abort_receiver t).0 ≡ true
            → (given ≡ ready none) × (Items.is_terminated me' ≡ true))
        × (got ≡ pending
            → (is_aborted c me.abort_receiver t).0 ≡ false
            → (given ≡ pending) × (me' ≡ me))
  unfolding Items.poll_next Items.is_terminated
  poll_next-outcome me ch s e = simp e (after_poll-outcome me ch (c.poll_item ch s.world).0 _)
