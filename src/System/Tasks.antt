-- ===== src/System/Tasks.antt =====
-- The steps of the tasks of the producer keep a request sound.
use zzrpc.Prelude.{
  ℕ, ◌+◌, ◌≤◌, ◌≡◌, refl, ap, ◌∙◌, inl, inr, one, total, total-append, Bool, true, false, ◌&&◌,
  if◌then◌else◌, ◌==◌, Bool-cases, none, some, List, [], ◌∷◌, ◌++◌, map, arith,
}
use zzrpc.Rpc.{ShutdownType}
use zzrpc.Message.{Request, Response, StreamResponse, Message}
use zzrpc.Producer.Task.{ValueEvent, StreamEvent, value_task, stream_loop, stream_task}
use zzrpc.Producer.Loop as Main
use zzrpc.Producer.Loop.{farewell, reply_option}
use zzrpc.Producer.Requests.{spawns, replies, Tells}
use zzrpc.System.{Task, starting, serving, System, said, task_of, after_main}
use zzrpc.System.Counts.{
  First, nothing, opens, closes, then_first, of_request, of_starting, of_live, of_served,
  of_message, first, early, first_said, Orderly, IsSound, total-split, then_first-nothing,
  first-append, first_unheard, served-le-live,
}
use zzrpc.System.Network.{shrink, say, Orderly-le}

end-Orderly :
    (w n n' o : ℕ) (f : First) (b : Bool)
    → n ≡ n' + o
    → (b ≡ true → o ≡ 1)
    → Orderly w n f
    → Orderly w n' (then_first f (if b then closes else nothing))
end-Orderly w n n' o f false e h x =
    rw (then_first-nothing f) (Orderly-le _ _ _ _ _ (omega arith) (omega arith) x)
end-Orderly w n n' o f true e h (inl z) = inl z
end-Orderly w n n' o f true e h (inr (inl z)) = inr (inl (rw z refl))
end-Orderly w n n' o f true e h (inr (inr (z, y))) = absurd (omega (arith, h refl))

open-Orderly :
    (w n n' o : ℕ) (f : First) (b : Bool)
    → n' ≡ n + o
    → (b ≡ false → o ≡ 0)
    → (b ≡ true → f ≡ nothing)
    → Orderly w n f
    → Orderly w n' (then_first f (if b then opens else nothing))
open-Orderly w n n' o f false e h g x =
    rw (then_first-nothing f) (Orderly-le _ _ _ _ _ (omega arith) (omega (arith, h refl)) x)
open-Orderly w n n' o f true e h g x = inr (inl (rw (g refl) refl))

served-here : (j k id i : ℕ) → ((id == j) && (i == k)) ≡ true → of_served j k (serving id i) ≡ 1
served-here j k id i e = ground arith

served-elsewhere :
    (j k id i : ℕ) → ((id == j) && (i == k)) ≡ false → of_served j k (serving id i) ≡ 0
served-elsewhere j k id i e = ground arith

starting-here : (j k id i : ℕ) → ((id == j) && (i == k)) ≡ true → of_starting j (starting id i) ≡ 1
starting-here j k id i e = ground arith

module _ (j k : ℕ) {R T S P : Type 0} where
  pub silent-first :
      (s : System R T S P) → IsSound j k s → 1 ≤ early j s → first_said j k s ≡ nothing
  silent-first s sound q =
      let h = sound.silent q in
      rw (first_unheard j k s.to_consumer (omega arith)) (first_unheard j k s.replies (omega arith))

  pub finish-IsSound :
      (s : System R T S P) (xs ys : List Task) (id i : ℕ) (x : T)
      → s.tasks ≡ xs ++ starting id i ∷ ys
      → IsSound j k s
      → IsSound j k (record s {
        tasks = xs ++ ys;
        replies = s.replies ++ said (value_task id i (ValueEvent.finished x));
      })
  unfolding value_task
  finish-IsSound s xs ys id i x e sound =
      let a = total-split (of_starting j) s.tasks xs (starting id i) ys e in
      let b = total-split (of_live j) s.tasks xs (starting id i) ys e in
      let d = total-split (of_served j k) s.tasks xs (starting id i) ys e in
      say j k s (xs ++ ys) (Message.response id (Response.value i x)) (omega (arith, a))
        (omega (arith, a, b)) (omega (arith, a)) (λ q. omega (arith, a))
        (rw (then_first-nothing (first_said j k s))
          (Orderly-le _ _ _ _ _ (omega arith) (omega (arith, d)) sound.order))
        sound

  pub serve-IsSound :
      (s : System R T S P) (xs ys : List Task) (id i : ℕ) (x : T)
      → s.tasks ≡ xs ++ serving id i ∷ ys
      → IsSound j k s
      → IsSound j k (record s {
        replies = s.replies ++ said (stream_loop id i (StreamEvent.next (some x) ∷ [])).0;
      })
  unfolding stream_loop
  serve-IsSound s xs ys id i x e sound =
      let b = total-split (of_live j) s.tasks xs (serving id i) ys e in
      say j k s s.tasks (Message.response id (Response.stream i (StreamResponse.item x)))
        (omega arith) (omega arith) (omega (arith, b)) (λ q. omega (arith, b))
        (rw (then_first-nothing (first_said j k s)) sound.order) sound

  pub end-IsSound :
      (s : System R T S P) (xs ys : List Task) (id i : ℕ)
      → s.tasks ≡ xs ++ serving id i ∷ ys
      → IsSound j k s
      → IsSound j k (record s {
        tasks = xs ++ ys;
        replies = s.replies ++ said (stream_loop {T = T} id i (StreamEvent.next none ∷ [])).0;
      })
  unfolding stream_loop
  end-IsSound s xs ys id i e sound =
      let a = total-split (of_starting j) s.tasks xs (serving id i) ys e in
      let b = total-split (of_live j) s.tasks xs (serving id i) ys e in
      let d = total-split (of_served j k) s.tasks xs (serving id i) ys e in
      say j k s (xs ++ ys) (Message.response id (Response.stream i StreamResponse.closed))
        (omega (arith, a)) (omega (arith, a, b)) (omega (arith, b)) (λ q. omega (arith, a, b))
        (end-Orderly _ _ _ _ (first_said j k s) ((id == j) && (i == k)) d (served-here j k id i)
          sound.order)
        sound

  pub open-IsSound :
      (s : System R T S P) (xs ys : List Task) (id i : ℕ)
      → s.tasks ≡ xs ++ starting id i ∷ ys
      → IsSound j k s
      → IsSound j k (record s {
        tasks = xs ++ serving id i ∷ ys;
        replies = s.replies ++ said (stream_task {T = T} id i []).0;
      })
  unfolding stream_task stream_loop
  open-IsSound s xs ys id i e sound =
      let a = total-split (of_starting j) s.tasks xs (starting id i) ys e in
      let b = total-split (of_live j) s.tasks xs (starting id i) ys e in
      let d = total-split (of_served j k) s.tasks xs (starting id i) ys e in
      let a' = total-split (of_starting j) (xs ++ serving id i ∷ ys) xs (serving id i) ys refl in
      let b' = total-split (of_live j) (xs ++ serving id i ∷ ys) xs (serving id i) ys refl in
      let d' = total-split (of_served j k) (xs ++ serving id i ∷ ys) xs (serving id i) ys refl in
      say j k s (xs ++ serving id i ∷ ys)
        (Message.response id (Response.stream i StreamResponse.open_)) (omega (arith, a, a'))
        (omega (arith, a, b, a', b')) (omega (arith, a)) (λ q. omega (arith, a, b, a', b'))
        (open-Orderly _ _ _ _ (first_said j k s) ((id == j) && (i == k)) (omega (arith, d, d'))
          (served-elsewhere j k id i)
          (λ q. silent-first s sound (omega (arith, a, starting-here j k id i q))) sound.order)
        sound

farewell-unheard :
    (R T : Type 0) (j : ℕ) (cause : ShutdownType)
    → total (of_message j) (replies {R = R} {T = T} (reply_option (farewell cause))) ≡ 0
unfolding farewell
farewell-unheard R T j ShutdownType.closed = refl
farewell-unheard R T j ShutdownType.shutdown = refl
farewell-unheard R T j ShutdownType.aborted = refl
farewell-unheard R T j ShutdownType.timeout = refl

-- What a round of the main task says is about no request.
pub round-unheard :
    (j : ℕ) (R T F P : Type 0) (asked : List (ℕ × R)) (round : Main.Round R T P)
    → Tells R T F P asked round
    → total (of_message j) (replies round.effects) ≡ 0
round-unheard j R T F P asked round (started, on, off) = elim (Bool-cases round.goes_on) [
  | inl e ↦ rw (on e) refl
  | inr e ↦ rw (off e) (farewell-unheard R T j round.state.return_value)
]

started-total :
    {R : Type 0} (j : ℕ) (method_of : R → ℕ) (rs : List (ℕ × R))
    → (total (of_starting j) (map (task_of method_of) rs) ≡ total (λ r. one j r.0) rs)
      × (total (of_live j) (map (task_of method_of) rs) ≡ 0)
started-total j method_of [] = (refl, refl)
started-total j method_of ((id, r) ∷ rs) =
    let (a, b) = started-total j method_of rs in (omega (arith, a), omega (arith, b))

module _ (j k : ℕ) {R T S P : Type 0} (F : Type 0) (method_of : R → ℕ) where
  -- A round of the main task, with the requests that it read.
  pub round-IsSound :
      (s : System R T S P) (round : Main.Round R T P) (asked : List (ℕ × R)) (ms : List (Request R))
      → Tells R T F P asked round
      → total (of_request j) ms + total (λ r. one j r.0) asked ≤ total (of_request j) s.to_producer
      → IsSound j k s
      → IsSound j k (record (after_main method_of s round) { to_producer = ms })
  round-IsSound s round asked ms tells le sound =
      let added = map (task_of method_of) (spawns round.effects) in
      let (starts, lives) = started-total j method_of (spawns round.effects) in
      let came : total (λ r. one j r.0) (spawns round.effects) ≡ total (λ r. one j r.0) asked =
        ap (total (λ r. one j r.0)) tells.0 in
      let a = total-append (of_starting j) s.tasks added in
      let b = total-append (of_live j) s.tasks added in
      let d = total-append (of_served j k) s.tasks added in
      let v = served-le-live j k added in
      let u = round-unheard j R T F P asked round tells in
      let h = total-append (of_message j) s.replies (replies round.effects) in
      shrink j k s _ (λ u. u) (omega arith) (omega arith) (omega arith)
        (omega (arith, a, starts, came, le)) (omega (arith, b, lives)) (omega (arith, d, v, lives))
        (omega (arith, h, u))
        (ap (then_first (first j k s.to_consumer)) (
          first-append j k s.replies (replies round.effects)
          ∙ rw (first_unheard j k (replies round.effects) u) (then_first-nothing _)))
        sound
