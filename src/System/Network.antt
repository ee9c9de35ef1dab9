-- ===== src/System/Network.antt =====
-- The steps of futures, tasks and the transport keep a request sound.
use zzrpc.Prelude.{
  ℕ, ◌+◌, ◌≤◌, ◌≡◌, ◌≢◌, ◌⊎◌, refl, ap, inl, inr, total, total-append, false, ◌&&◌, ◌==◌,
  Bool-cases, List, [], ◌∷◌, ◌++◌, arith,
}
use zzrpc.Message.{Response, StreamResponse, Message, ResultSender}
use zzrpc.Consumer.Unused.{Unused}
use zzrpc.System.{asks, aborts, Task, System, is_open}
use zzrpc.System.Counts.{
  First, nothing, opens, closes, then_first, of_call, of_sent, of_starting, of_live, of_served,
  of_message, stage, first, asked, early, live, served, heard, first_said, waits, Orderly, IsSound,
  one-cases, total-split, then_first-nothing, then_first_assoc, first-append,
}

pub Orderly-le : (w w' n n' : ℕ) (f : First) → w' ≤ w → n' ≤ n → Orderly w n f → Orderly w' n' f
Orderly-le w w' n n' f hw hn (inl e) = inl (omega arith)
Orderly-le w w' n n' f hw hn (inr (inl e)) = inr (inl e)
Orderly-le w w' n n' f hw hn (inr (inr (e, z))) = inr (inr (e, omega arith))

pub zero-or : (n : ℕ) → (n ≡ 0) ⊎ (1 ≤ n)
zero-or ℕ.zero = inl refl
zero-or (ℕ.suc n) = inr (omega arith)

lost-Orderly :
    (w n : ℕ) (a b c : First)
    → b ≢ opens
    → Orderly w n (then_first a (then_first b c))
    → Orderly w n (then_first a c)
lost-Orderly w n opens b c ne o = o
lost-Orderly w n closes b c ne o = o
lost-Orderly w n nothing nothing c ne o = o
lost-Orderly w n nothing opens c ne o = absurd (ne refl)
lost-Orderly w n nothing closes c ne (inl z) = inl z
lost-Orderly w n nothing closes c ne (inr (inl z)) = cc
lost-Orderly w n nothing closes c ne (inr (inr (z, y))) = cc

stage-ne-opens : {T : Type 0} (j k : ℕ) (m : Message T) → is_open m ≡ false → stage j k m ≢ opens
stage-ne-opens j k (Message.response id (Response.value i x)) h = λ e. cc
stage-ne-opens j k (Message.response id (Response.stream i StreamResponse.open_)) h = cc
stage-ne-opens j k (Message.response id (Response.stream i StreamResponse.closed)) h =
    elim (Bool-cases ((id == j) && (i == k))) [ inl e ↦ rw e (λ q. cc) | inr e ↦ rw e (λ q. cc) ]
stage-ne-opens j k (Message.response id (Response.stream i (StreamResponse.item x))) h = λ e. cc
stage-ne-opens j k Message.aborted h = λ e. cc
stage-ne-opens j k Message.shutdown h = λ e. cc

module _ (j k : ℕ) {R T S P : Type 0} where
  -- A step after which there is not more of the request anywhere.
  pub build :
      (s t : System R T S P)
      → (Unused j s.consumer → Unused j t.consumer)
      → s.next_id ≤ t.next_id
      → asked j t ≤ asked j s
      → early j t ≤ early j s
      → live j t ≤ live j s
      → heard j t ≤ heard j s
      → Orderly (waits j k t.consumer) (served j k t) (first_said j k t)
      → IsSound j k s
      → IsSound j k t
  build s t u n a e l h o i = record {
    used = λ q. omega (arith, i.used (omega arith));
    unused = unused';
    once = omega (arith, i.once);
    silent = λ q. omega (arith, i.silent (omega arith));
    order = o;
  }
    where
      unused' : (t.next_id ≤ j) ⊎ (1 ≤ asked j t) → Unused j t.consumer
      unused' (inl q) = u (i.unused (inl (omega arith)))
      unused' (inr q) = u (i.unused (inr (omega arith)))

  pub shrink :
      (s t : System R T S P)
      → (Unused j s.consumer → Unused j t.consumer)
      → waits j k t.consumer ≤ waits j k s.consumer
      → s.next_id ≤ t.next_id
      → asked j t ≤ asked j s
      → early j t ≤ early j s
      → live j t ≤ live j s
      → served j k t ≤ served j k s
      → heard j t ≤ heard j s
      → first_said j k t ≡ first_said j k s
      → IsSound j k s
      → IsSound j k t
  shrink s t u w n a e l v h f i = build s t u n a e l h (rw f (Orderly-le _ _ _ _ _ w v i.order)) i

  pub call-IsSound :
      (s : System R T S P) (r : R)
      → IsSound j k s
      → IsSound j k (record s { next_id = s.next_id + 1; unsent = s.unsent ++ (s.next_id, r) ∷ [] })
  call-IsSound s r i =
      let came = total-append (of_call j) s.unsent ((s.next_id, r) ∷ []) in
      elim (one-cases j s.next_id) [
        | inl (eq, o) ↦
            let gone = i.used (omega arith) in
            record {
              used = λ q. absurd (omega arith);
              unused = λ q. i.unused (inl (omega arith));
              once = omega (arith, came, gone);
              silent = λ q. omega (arith, gone);
              order = i.order;
            }
        | inr (ne, o) ↦
            shrink s _ (λ u. u) (omega arith) (omega arith) (omega (arith, came))
              (omega (arith, came)) (omega arith) (omega arith) (omega arith) refl i
      ]

  pub poll-IsSound :
      (s : System R T S P) (xs ys : List (ℕ × R)) (id i : ℕ) (r : R) (sender : ResultSender)
      → s.unsent ≡ xs ++ (id, r) ∷ ys
      → IsSound j k s
      → IsSound j k (record s { unsent = xs ++ ys; channel = s.channel ++ asks i id r sender ∷ [] })
  poll-IsSound s xs ys id i r sender e sound =
      let left = total-split (of_call j) s.unsent xs (id, r) ys e in
      let came = total-append (of_sent j) s.channel (asks i id r sender ∷ []) in
      shrink s _ (λ u. u) (omega arith) (omega arith) (omega (arith, left, came))
        (omega (arith, left, came)) (omega arith) (omega arith) (omega arith) refl sound

  pub abort-IsSound :
      (s : System R T S P) (i id : ℕ)
      → IsSound j k s
      → IsSound j k (record s { channel = s.channel ++ aborts i id ∷ [] })
  abort-IsSound s i id sound =
      let came = total-append (of_sent j) s.channel (aborts i id ∷ []) in
      shrink s _ (λ u. u) (omega arith) (omega arith) (omega (arith, came)) (omega (arith, came))
        (omega arith) (omega arith) (omega arith) refl sound

  pub stop-IsSound :
      (s : System R T S P) (xs ys : List Task) (task : Task)
      → s.tasks ≡ xs ++ task ∷ ys
      → IsSound j k s
      → IsSound j k (record s { tasks = xs ++ ys })
  stop-IsSound s xs ys task e sound =
      let a = total-split (of_starting j) s.tasks xs task ys e in
      let b = total-split (of_live j) s.tasks xs task ys e in
      let d = total-split (of_served j k) s.tasks xs task ys e in
      shrink s _ (λ u. u) (omega arith) (omega arith) (omega arith) (omega (arith, a))
        (omega (arith, b)) (omega (arith, d)) (omega arith) refl sound

  pub forward-IsSound :
      (s : System R T S P) (m : Message T) (ms : List (Message T))
      → s.replies ≡ m ∷ ms
      → IsSound j k s
      → IsSound j k (record s { replies = ms; to_consumer = s.to_consumer ++ m ∷ [] })
  forward-IsSound s m ms e sound =
      let came = total-append (of_message j) s.to_consumer (m ∷ []) in
      let left = ap (total (of_message j)) e in
      shrink s _ (λ u. u) (omega arith) (omega arith) (omega arith) (omega arith) (omega arith)
        (omega arith) (omega (arith, came, left)) same sound
    where
      same : then_first (first j k (s.to_consumer ++ m ∷ [])) (first j k ms) ≡ first_said j k s
      same = rw (
        first-append j k s.to_consumer (m ∷ []),
        then_first-nothing (stage j k m),
        then_first_assoc (first j k s.to_consumer) (stage j k m) (first j k ms),
        e,
      )

  pub lose-IsSound :
      (s : System R T S P) (m : Message T) (ms : List (Message T))
      → s.replies ≡ m ∷ ms
      → is_open m ≡ false
      → IsSound j k s
      → IsSound j k (record s { replies = ms })
  lose-IsSound s m ms e h sound =
      let left = ap (total (of_message j)) e in
      build s _ (λ u. u) (omega arith) (omega arith) (omega arith) (omega arith)
        (omega (arith, left))
        (lost-Orderly _ _ (first j k s.to_consumer) (stage j k m) (first j k ms)
          (stage-ne-opens j k m h) (rw e at sound.order))
        sound

  -- A task moves on and says one thing.
  pub say :
      (s : System R T S P) (ts : List Task) (m : Message T)
      → total (of_starting j) ts ≤ total (of_starting j) s.tasks
      → total (of_starting j) ts + total (of_live j) ts
        ≤ total (of_starting j) s.tasks + total (of_live j) s.tasks
      → of_message j m ≤ total (of_starting j) s.tasks + total (of_live j) s.tasks
      → (1 ≤ of_message j m
          → total (of_starting j) ts + 1
            ≤ total (of_starting j) s.tasks + total (of_live j) s.tasks)
      → Orderly
          (waits j k s.consumer)
          (total (of_served j k) ts)
          (then_first (first_said j k s) (stage j k m))
      → IsSound j k s
      → IsSound j k (record s { tasks = ts; replies = s.replies ++ m ∷ [] })
  say s ts m less conserve from last o i =
      let came = total-append (of_message j) s.replies (m ∷ []) in
      record {
        used = λ q. omega (arith, i.used q, came);
        unused = i.unused;
        once = omega (arith, i.once);
        silent = λ q. quiet q (zero-or (of_message j m));
        order =
            rw
              (
                first-append j k s.replies (m ∷ []),
                then_first-nothing (stage j k m),
                ← then_first_assoc (first j k s.to_consumer) (first j k s.replies) (stage j k m),
              )
              o;
      }
    where
      quiet :
          1 ≤ early j (record s { tasks = ts; replies = s.replies ++ m ∷ [] })
          → (of_message j m ≡ 0) ⊎ (1 ≤ of_message j m)
          → heard j (record s { tasks = ts; replies = s.replies ++ m ∷ [] }) ≡ 0
      quiet q (inl z) =
          omega (arith, i.silent (omega arith), total-append (of_message j) s.replies (m ∷ []), z)
      quiet q (inr p) = absurd (omega (arith, last p, i.once))
