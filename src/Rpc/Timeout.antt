-- ===== src/Rpc/Timeout.antt =====
-- zzrpc/src/lib.rs: the `Timeout` future. The clock and the sleep future (tokio or js_utils) are a
-- parameter; instants and durations are numbers of one unit.
pub mod Laws
use zzrpc.Prelude.{ℕ, ◌+◌, ◌≤◌, ◌<◌, ◌≡◌, Bool, true, false}

pub data Poll (A : Type 0) : Type 0 where
  ready : A → Poll A
  pending : Poll A

-- `Instant::now` is the argument `now` of the calls below.
pub record Sleeping : Type 1 where
  pub Sleep : Type 0
  -- `sleep(duration)`, called at `now`
  pub sleep : (now duration : ℕ) → Sleep
  -- `Sleep::reset(deadline)`
  pub reset_at : Sleep → ℕ → Sleep
  -- `Sleep::poll`, called at `now`
  pub poll_sleep : Sleep → (now : ℕ) → Poll (Unit {0}) × Sleep

-- Documented: a sleep is done at its deadline and stays so; a reset moves the deadline.
pub record SleepLaws (c : Sleeping) : Type 0 where
  pub deadline : c.Sleep → ℕ
  pub deadline-sleep : (now d : ℕ) → deadline (c.sleep now d) ≡ now + d
  pub deadline-reset : (s : c.Sleep) (t : ℕ) → deadline (c.reset_at s t) ≡ t
  pub early : (s : c.Sleep) (now : ℕ) → now < deadline s → (c.poll_sleep s now).0 ≡ pending
  pub due : (s : c.Sleep) (now : ℕ) → deadline s ≤ now → (c.poll_sleep s now).0 ≡ ready tt
  pub deadline-poll : (s : c.Sleep) (now : ℕ) → deadline (c.poll_sleep s now).1 ≡ deadline s

pub data Timeout (S : Type 0) : Type 0 where
  after : (duration : ℕ) (sleep : S) → Timeout S
  never : Timeout S

module _ (c : Sleeping) where
  unfoldable pub new : (now duration : ℕ) → Timeout c.Sleep
  new now d = after d (c.sleep now d)

  unfoldable pub reset : (now : ℕ) → Timeout c.Sleep → Timeout c.Sleep
  reset now (after d s) = after d (c.reset_at s (now + d))
  reset now never = never

  unfoldable pub poll : (now : ℕ) → Timeout c.Sleep → Poll (Unit {0}) × Timeout c.Sleep
  poll now (after d s) = let (r, s') = c.poll_sleep s now in (r, after d s')
  poll now never = (pending, never)

unfoldable pub is_terminated : {S : Type 0} → Timeout S → Bool
is_terminated (after d s) = false
is_terminated never = true
