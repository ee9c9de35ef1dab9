-- ===== src/Consumer/Expiry.antt =====
-- The timeout of the consumer.
use zzrpc.Prelude.{ℕ, ◌<◌, ◌≡◌, ◌≢◌, Bool, true, List, [], usize_mod, Bool-cases, inl, inr, total}
use zzrpc.Rpc.{ShutdownType}
use zzrpc.Consumer.State.{State}
use zzrpc.Consumer.Handle.{idle}
use zzrpc.Consumer.Take.{break_}
use zzrpc.Consumer.Loop.{timed_out, Settings, step}
use zzrpc.Consumer.Mass.{mass, spent}
use zzrpc.Consumer.Pending.{Reach, Reach-idle, outstanding}
use zzrpc.Consumer.Shutdown.{Fails, expired, stop-Fails_all}
use zzrpc.Consumer.Answers.{goes}

-- When the sleep of a consumer with a timeout is over, in a state that its loop reaches while no
-- stream is closed before it was opened and no request comes with an id in use: with requests in
-- flight, the round leaves the loop, and every request in flight is answered with the error of
-- `Timeout`; without any, the round does nothing at all, not even a reset of the sleep.
pub expiry-in_flight :
    {R T E S : Type 0} {c : Settings E S} {cb : S} {kinds : List Bool} {b : S} {s : State}
    → Reach R T c cb kinds b s
    → outstanding s < usize_mod
    → c.has_timeout ≡ true
    → let r = step {R = R} {T = T} c b s timed_out in
      (outstanding s ≢ 0
        → (r.flow ≡ break_)
          × Fails ShutdownType.timeout r.effects
          × ((u v : ℕ → ℕ) → (total (spent u v) r.effects ≡ mass u v s) × (mass u v r.state ≡ 0)))
      × (outstanding s ≡ 0 → r ≡ goes b s [])
unfolding step
expiry-in_flight {c} {b} {s} r small h =
    let idles = (Reach-idle r small).1 in
    (
      λ ne.
          stop-Fails_all {c = c} (
            expired h (elim (Bool-cases (idle s)) [ inl e ↦ absurd (ne (idles.0 e)) | inr e ↦ e ])),
      λ e. rw (h, idles.1 e),
    )
