-- ===== src/System/Log.antt =====
-- What a run of the system has called, polled and given so far, the latest first, and what its
-- consumer has done.
use zzrpc.Prelude.{ℕ, Bool, some, List, [], ◌∷◌, ◌++◌}
use zzrpc.Prelude.Table.{Table}
use zzrpc.Message.{ResultSender}
use zzrpc.Consumer.State.{Effect}
use zzrpc.Consumer.Loop
use zzrpc.Producer.Loop as Main
use zzrpc.System.{
  taken, System, Step, call, poll, take, receive, other, finish, serve, Reach, start, later,
}

pub record Log (R T : Type 0) : Type 0 where
  -- The arguments of each call, and the sender that the first poll made for it.
  pub called : Table R
  pub senders : Table ResultSender
  -- The values and items that tasks gave, each with the id and the method of the task.
  pub given : List (ℕ × ℕ × T)

module _ {R T E F S P : Type 0} {kinds : List Bool} {method_of : R → ℕ} {c : Loop.Settings E S}
    {d : Main.Settings F P} where
  abbrev pub step_log : {s t : System R T S P} → Step kinds method_of c d s t → Log R T → Log R T
  step_log {s} (call r small) l = record l { called = (s.next_id, r) ∷ l.called }
  step_log (poll n xs ys id r sender b e at fits) l = record l {
    senders = (id, sender) ∷ l.senders;
  }
  step_log (finish xs ys id k x e at) l = record l { given = (id, k, x) ∷ l.given }
  step_log (serve xs ys id k x e) l = record l { given = (id, k, x) ∷ l.given }
  step_log _ l = l

  -- The effects of the round of the consumer.
  abbrev pub step_effects :
      {s t : System R T S P} → Step kinds method_of c d s t → List (Effect R T E)
  step_effects {s} (take xs ys x failure e first goes) =
      (Loop.step c s.callback s.consumer (taken x failure)).effects
  step_effects {s} (receive m ms e goes) =
      (Loop.step c s.callback s.consumer (Loop.received (some (Loop.Received.ok m)))).effects
  step_effects {s} (other event h goes) = (Loop.step c s.callback s.consumer event).effects
  step_effects _ = []

  module _ {cb : S} {its_cb : P} where
    abbrev pub log_of : {s : System R T S P} → Reach kinds method_of c d cb its_cb s → Log R T
    log_of start = record { called = []; senders = []; given = [] }
    log_of (later r x) = step_log x (log_of r)

    abbrev pub effects_of :
        {s : System R T S P} → Reach kinds method_of c d cb its_cb s → List (Effect R T E)
    effects_of start = []
    effects_of (later r x) = effects_of r ++ step_effects x
