-- ===== src/Rpc/Timeout/Laws.antt =====
-- When a timeout fires.
use zzrpc.Prelude.{ℕ, ◌+◌, ◌≤◌, ◌<◌, ◌≡◌, ◌∙◌, arith}
use zzrpc.Rpc.Timeout.{ready, pending, Sleeping, SleepLaws, after, new, reset, poll}

module _ (c : Sleeping) (laws : SleepLaws c) where
  fires :
      (d t at : ℕ) (s : c.Sleep)
      → laws.deadline s ≡ t
      → (at < t → (poll c at (after d s)).0 ≡ pending)
        × (t ≤ at → (poll c at (after d s)).0 ≡ ready tt)
  unfolding poll
  fires d t at s e = (λ h. laws.early s at (omega arith), λ h. laws.due s at (omega arith))

  -- A timeout of duration `d` is pending until `d` after its start, and ready from then on. A reset
  -- at `r` moves that to `d` after `r`, also when it was ready; a poll does not move it, so without
  -- a reset every poll after a ready one is ready again.
  pub timeout-fires :
      (start d r at later : ℕ)
      → let t = new c start d in
        let u = reset c r (poll c at t).1 in
        (at < start + d → (poll c at t).0 ≡ pending)
        × (start + d ≤ at → (poll c at t).0 ≡ ready tt)
        × (start + d ≤ later → (poll c later (poll c at t).1).0 ≡ ready tt)
        × (later < r + d → (poll c later u).0 ≡ pending)
        × (r + d ≤ later → (poll c later u).0 ≡ ready tt)
  unfolding new reset poll
  timeout-fires start d r at later =
      let s = c.sleep start d in
      let s' = (c.poll_sleep s at).1 in
      let fresh = fires d (start + d) at s (laws.deadline-sleep start d) in
      let again =
        fires d (start + d) later s' (laws.deadline-poll s at ∙ laws.deadline-sleep start d) in
      let moved = fires d (r + d) later (c.reset_at s' (r + d)) (laws.deadline-reset s' (r + d)) in
      (fresh.0, fresh.1, again.1, moved.0, moved.1)
