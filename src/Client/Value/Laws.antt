-- ===== src/Client/Value/Laws.antt =====
-- What a value request answers, and when it talks to the producer.
use zzrpc.Prelude.{ℕ, ◌≡◌, refl, inl, inr, Bool, true, false, Option, none, some, Bool-cases, arith}
use zzrpc.Rpc.{Error}
use zzrpc.Rpc.Timeout.{Poll, ready, pending}
use zzrpc.Message.{Result}
use zzrpc.Client.Channels.{Channels, Store, is_aborted, drop_taken}
use zzrpc.Client.Value.{
  ValueRequest, is_terminated, poll, first_result, after_send, send_first, next_result, resume,
  drop,
}

is_terminated-of :
    {R : Type 0} (me : ValueRequest R)
    → me.request ≡ none
    → me.receiver ≡ none
    → is_terminated me ≡ true
unfolding is_terminated
is_terminated-of me e f = ground arith

module _ {R T E : Type 0} (c : Channels R T E) where
  drop-is_terminated :
      (me : ValueRequest R) (t : Store c.World) → is_terminated me ≡ true → drop c me t ≡ (tt, t)
  unfolding drop
  drop-is_terminated me t e = rw e

  abbrev Settled : Poll (Result T E) × ValueRequest R → Type 0
  Settled (ready r, me) = (me.request ≡ none) × (me.receiver ≡ none)
  Settled (pending, me) = me.request ≡ none

  first_result-Settled :
      (me : ValueRequest R) (ch : ℕ) (p : Poll (Option (Result T E))) (s : Store c.World)
      → Settled (first_result c me ch p s).0
  unfolding first_result
  first_result-Settled me ch (ready r) s = (refl, refl)
  first_result-Settled me ch pending s = refl

  after_send-Settled :
      (me : ValueRequest R) (ch : ℕ) (sent : Bool) (s : Store c.World)
      → Settled (after_send c me ch sent s).0
  unfolding after_send
  after_send-Settled me ch true s = first_result-Settled me ch _ _
  after_send-Settled me ch false s = (refl, refl)

  next_result-Settled :
      (me : ValueRequest R) (ch : ℕ) (p : Poll (Option (Result T E))) (s : Store c.World)
      → me.request ≡ none
      → Settled (next_result c me ch p s).0
  unfolding next_result
  next_result-Settled me ch (ready r) s e = (refl, refl)
  next_result-Settled me ch pending s e = e

  resume-Settled :
      (me : ValueRequest R) (request : Option R) (receiver : Option ℕ) (s : Store c.World)
      → me.request ≡ request
      → Settled (resume c me request receiver s).0
  unfolding resume send_first
  resume-Settled me (some request) receiver s e = after_send-Settled me _ _ _
  resume-Settled me none (some ch) s e = next_result-Settled me ch _ _ e
  resume-Settled me none none s e = e

  poll-Settled : (me : ValueRequest R) (s : Store c.World) → Settled (poll c me s).0
  unfolding poll
  poll-Settled me s = elim (Bool-cases (is_aborted c me.abort_receiver s).0) [
    | inl e ↦ rw e (refl, refl)
    | inr e ↦
        rw e (resume-Settled me me.request me.receiver (is_aborted c me.abort_receiver s).1 refl)
  ]

  -- After any poll the request is gone, so no later poll sends it again. Once a poll is ready the
  -- future is terminated, and its drop sends no abort and changes nothing.
  pub poll-finishes :
      (me : ValueRequest R) (s : Store c.World)
      → let (answered, me') = (poll c me s).0 in
        (me'.request ≡ none)
        × ((r : Result T E)
            → answered ≡ ready r
            → (is_terminated me' ≡ true) × ((t : Store c.World) → drop c me' t ≡ (tt, t)))
  poll-finishes me s = finishes (poll c me s).0 (poll-Settled me s)
    where
      finishes :
          (p : Poll (Result T E) × ValueRequest R)
          → Settled p
          → (p.1.request ≡ none)
            × ((r : Result T E)
                → p.0 ≡ ready r
                → (is_terminated p.1 ≡ true) × ((t : Store c.World) → drop c p.1 t ≡ (tt, t)))
      finishes (ready r, me) f =
          (f.0, λ r' e. let d = is_terminated-of me f.0 f.1 in (d, λ t. drop-is_terminated me t d))
      finishes (pending, me) f = (f, λ r' e. cc)

  -- Once the abort has arrived, the poll answers `Aborted`, whatever else happened: the request is
  -- not sent if it was not sent yet, the receiver is dropped, and the future is terminated.
  pub poll-aborted :
      (me : ValueRequest R) (s : Store c.World)
      → (is_aborted c me.abort_receiver s).0 ≡ true
      → (poll c me s ≡ (
        (ready (Result.err Error.aborted), record me { request = none; receiver = none }),
        (drop_taken c me.receiver (is_aborted c me.abort_receiver s).1).1,
      ))
        × (is_terminated (poll c me s).0.1 ≡ true)
  unfolding poll
  poll-aborted me s e = rw e (refl, is_terminated-of _ refl refl)
