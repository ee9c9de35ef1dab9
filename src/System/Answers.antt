-- ===== src/System/Answers.antt =====
-- What a caller is given comes from the task of its own call.
use mathlib.Core.List.{Memᴰ}
use zzrpc.Prelude.{ℕ, ◌≡◌, refl, Bool, true, false, some, List, [], ◌∷◌, subst, sym}
use zzrpc.Prelude.Table.{lookup}
use zzrpc.Message.{Result, ResultSender}
use zzrpc.Consumer.State.{send_result, send_item, new}
use zzrpc.Consumer.Loop
use zzrpc.Consumer.Tables.{IsDistinct}
use zzrpc.Producer.Loop as Main
use zzrpc.System.{System, Step, take, receive, other, Reach, start, later}
use zzrpc.System.Sound.{Reach-IsDistinct, Reach-IsSound}
use zzrpc.System.Log.{Log, step_log, step_effects, log_of, effects_of}
use zzrpc.System.Genuine.{
  All, All-append, All-mono, SentFits, MessageFits, StateFits, EffectFits, Fits,
}
use zzrpc.System.Growth.{Fits-mono, EffectFits-mono}
use zzrpc.System.Effects.{take-RoundFits, receive-RoundFits, other-RoundFits}
use zzrpc.System.Fresh.{IsFresh, Step-IsFresh, Step-Grows}
use zzrpc.System.Origin.{kept-Fits, All-take}

All-at : {A : Type 0} (P : A → Type 0) {x : A} {xs : List A} → All P xs → Memᴰ x xs → P x
All-at P p (Memᴰ.head e) = subst P (sym e) p.0
All-at P p (Memᴰ.tail m) = All-at P p.1 m

new-StateFits :
    {R T : Type 0} (method_of : R → ℕ) (l : Log R T) (kinds : List Bool)
    → StateFits method_of l (new kinds)
unfolding new lookup
new-StateFits method_of l [] k = tt
new-StateFits method_of l (false ∷ kinds) ℕ.zero = λ id. (tt, tt)
new-StateFits method_of l (true ∷ kinds) ℕ.zero = λ id. (tt, tt)
new-StateFits method_of l (b ∷ kinds) (ℕ.suc k) = new-StateFits method_of l kinds k

module _ {R T E F S P : Type 0} (kinds : List Bool) (method_of : R → ℕ) (c : Loop.Settings E S)
    (d : Main.Settings F P) where
  step-EffectFits :
      {s t : System R T S P} (l : Log R T) (x : Step kinds method_of c d s t)
      → IsDistinct s.consumer
      → Fits method_of l s
      → All (EffectFits method_of (step_log x l)) (step_effects x)
  step-EffectFits {s} l (take xs ys x failure e first goes) i f =
      let (h, rest) = All-take (SentFits method_of l) s.channel xs x ys e f.channel in
      (take-RoundFits method_of l c s.callback s.consumer x failure i f.consumer h goes).1
  step-EffectFits {s} l (receive m ms e goes) i f =
      let (h, rest) = subst (All (MessageFits method_of l)) e f.to_consumer in
      (receive-RoundFits method_of l c s.callback s.consumer m i f.consumer h goes).1
  step-EffectFits {s} l (other event h goes) i f =
      (other-RoundFits method_of l c s.callback s.consumer event f.consumer h goes).1
  step-EffectFits l _ i f = tt

  module _ {cb : S} {its_cb : P} where
    Reach-IsFresh :
        {s : System R T S P} (r : Reach kinds method_of c d cb its_cb s) → IsFresh (log_of r) s
    unfolding lookup
    Reach-IsFresh start = record { called = λ j h. refl; senders = λ j h. refl }
    Reach-IsFresh (later r x) =
        Step-IsFresh kinds method_of c d (log_of r) x (λ j. Reach-IsSound kinds method_of c d j 0 r)
          (Reach-IsFresh r)

    Reach-Fits :
        {s : System R T S P} (r : Reach kinds method_of c d cb its_cb s)
        → Fits method_of (log_of r) s
    Reach-Fits start = record {
      unsent = tt;
      channel = tt;
      to_producer = tt;
      tasks = tt;
      replies = tt;
      to_consumer = tt;
      consumer =
          new-StateFits {T = T} method_of (record { called = []; senders = []; given = [] }) kinds;
    }
    Reach-Fits (later {s} r x) =
        kept-Fits kinds method_of c d (log_of r) x (Reach-IsDistinct kinds method_of c d r) (
          Fits-mono method_of (log_of r) (step_log x (log_of r))
            (Step-Grows kinds method_of c d (log_of r) x (Reach-IsFresh r)) s (Reach-Fits r))

    Reach-EffectFits :
        {s : System R T S P} (r : Reach kinds method_of c d cb its_cb s)
        → All (EffectFits method_of (log_of r)) (effects_of r)
    Reach-EffectFits start = tt
    Reach-EffectFits (later r x) =
        All-append (EffectFits method_of _) (effects_of r) (step_effects x)
          (All-mono _ _ (effects_of r)
            (EffectFits-mono method_of (log_of r) (step_log x (log_of r))
              (Step-Grows kinds method_of c d (log_of r) x (Reach-IsFresh r)))
            (Reach-EffectFits r))
          (step-EffectFits (log_of r) x (Reach-IsDistinct kinds method_of c d r) (Reach-Fits r))

    -- In any run of the whole program, below 2^64 calls and over a transport that keeps the order and
    -- loses no `Open`: a value that the consumer puts into the sender of a result comes from the
    -- task of one call, for the method of that call, and the sender is the one that the first
    -- poll of that same call made.
    pub value_origin :
        {s : System R T S P} (r : Reach kinds method_of c d cb its_cb s) (sender : ℕ) (x : T)
        → Memᴰ (send_result sender (Result.ok x)) (effects_of r)
        → (id : ℕ) × (a : R) × (lookup id (log_of r).called ≡ some a)
          × (lookup id (log_of r).senders ≡ some (ResultSender.value sender))
          × Memᴰ (id, method_of a, x) (log_of r).given
    value_origin r sender x m =
        let (id, k, ((a, e, same), given), p) =
          All-at (EffectFits method_of (log_of r)) (Reach-EffectFits r) m in
        (id, a, e, p, subst (λ k. Memᴰ (id, k, x) (log_of r).given) (sym same) given)

    -- In any such run an item that the consumer puts into the channel of a stream comes from the
    -- task of one call, for the method of that call, and the channel is the one that the
    -- first poll of that same call made.
    pub item_origin :
        {s : System R T S P} (r : Reach kinds method_of c d cb its_cb s) (items : ℕ) (x : T)
        → Memᴰ (send_item items x) (effects_of r)
        → (id : ℕ) × (a : R) × (sender : ℕ) × (lookup id (log_of r).called ≡ some a)
          × (lookup id (log_of r).senders ≡ some (ResultSender.stream sender items))
          × Memᴰ (id, method_of a, x) (log_of r).given
    item_origin r items x m =
        let (id, k, sender, ((a, e, same), given), p) =
          All-at (EffectFits method_of (log_of r)) (Reach-EffectFits r) m in
        (id, a, sender, e, p, subst (λ k. Memᴰ (id, k, x) (log_of r).given) (sym same) given)
