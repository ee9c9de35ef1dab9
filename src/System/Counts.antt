-- ===== src/System/Counts.antt =====
-- The traces of one request in the system: where it waits, and what was said about it.
use zzrpc.Prelude.{
  ℕ, ◌+◌, ◌≤◌, ◌≡◌, ◌≢◌, ◌⊎◌, refl, sym, inl, inr, one, total, total-append, ◌&&◌, if◌then◌else◌,
  ◌==◌, ==_iff, Bool-cases, List, [], ◌∷◌, ◌++◌, arith, weight,
}
use zzrpc.Message.{Request, Payload, Response, StreamResponse, Message}
use zzrpc.Consumer.State
use zzrpc.Consumer.Routing.{stream_at}
use zzrpc.Consumer.Unused.{Unused}
use zzrpc.Consumer.Pending.{unopened}
use zzrpc.System.{Sent, asks, aborts, Task, starting, serving, System}

-- What the messages on their way say first about a stream: that it opened, or that it closed.
pub data First : Type 0 where
  nothing opens closes : First

abbrev pub then_first : First → First → First
then_first nothing y = y
then_first x y = x

module _ (j : ℕ) where
  abbrev pub of_payload : {R : Type 0} → ℕ → Payload R → ℕ
  of_payload id (Payload.request r) = one j id
  of_payload id Payload.abort = 0

  abbrev pub of_call : {R : Type 0} → ℕ × R → ℕ
  of_call (id, r) = one j id

  abbrev pub of_sent : {R : Type 0} → Sent R → ℕ
  of_sent (asks k id r sender) = one j id
  of_sent (aborts k id) = 0

  abbrev pub of_request : {R : Type 0} → Request R → ℕ
  of_request m = of_payload m.id m.payload

  abbrev pub of_starting : Task → ℕ
  of_starting (starting id k) = one j id
  of_starting (serving id k) = 0

  abbrev pub of_live : Task → ℕ
  of_live (starting id k) = 0
  of_live (serving id k) = one j id

  abbrev pub of_message : {T : Type 0} → Message T → ℕ
  of_message (Message.response id r) = one j id
  of_message _ = 0

  abbrev pub of_served : ℕ → Task → ℕ
  of_served k (starting id i) = 0
  of_served k (serving id i) = if i == k then one j id else 0

  abbrev pub stage : {T : Type 0} → ℕ → Message T → First
  stage k (Message.response id (Response.stream i StreamResponse.open_)) =
      if (id == j) && (i == k) then opens else nothing
  stage k (Message.response id (Response.stream i StreamResponse.closed)) =
      if (id == j) && (i == k) then closes else nothing
  stage k _ = nothing

  abbrev pub first : {T : Type 0} → ℕ → List (Message T) → First
  first k [] = nothing
  first k (m ∷ ms) = then_first (stage k m) (first k ms)

  module _ {R T S P : Type 0} where
    -- The requests that the consumer has not taken.
    abbrev pub asked : System R T S P → ℕ
    asked s = total of_call s.unsent + total of_sent s.channel

    -- Those for which nothing was said yet.
    abbrev pub early : System R T S P → ℕ
    early s = asked s + total of_request s.to_producer + total of_starting s.tasks

    abbrev pub live : System R T S P → ℕ
    live s = total of_live s.tasks

    abbrev pub served : ℕ → System R T S P → ℕ
    served k s = total (of_served k) s.tasks

    abbrev pub heard : System R T S P → ℕ
    heard s = total of_message s.to_consumer + total of_message s.replies

    abbrev pub first_said : ℕ → System R T S P → First
    first_said k s = then_first (first k s.to_consumer) (first k s.replies)

  -- 1 if the method `k` has the stream request `j`, and did not hear that it opened.
  abbrev pub waits : ℕ → State.State → ℕ
  waits k s = weight unopened (stream_at s k j)

-- A stream that the consumer waits for is not closed before it is opened, and a task that has
-- opened it has said so.
abbrev pub Orderly : ℕ → ℕ → First → Type 0
Orderly waiting running said = (waiting ≡ 0) ⊎ ((said ≡ opens) ⊎ ((said ≡ nothing) × (running ≡ 0)))

-- The request `j` is in one place at most; nothing was said of it before a task opened or finished
-- it; the consumer has no entry for it before it took it.
pub record IsSound (j k : ℕ) {R T S P : Type 0} (s : System R T S P) : Type 0 where
  pub used : s.next_id ≤ j → early j s + live j s + heard j s ≡ 0
  pub unused : (s.next_id ≤ j) ⊎ (1 ≤ asked j s) → Unused j s.consumer
  pub once : early j s + live j s ≤ 1
  pub silent : 1 ≤ early j s → heard j s ≡ 0
  pub order : Orderly (waits j k s.consumer) (served j k s) (first_said j k s)

pub one-cases : (j n : ℕ) → ((n ≡ j) × (one j n ≡ 1)) ⊎ ((n ≢ j) × (one j n ≡ 0))
one-cases j n = elim (Bool-cases (n == j)) [
  | inl e ↦ inl ((==_iff n j).0 e, rw e refl)
  | inr e ↦ inr ((λ q. let h = (==_iff n j).1 q in cc), rw e refl)
]

pub total-split :
    {A : Type 0} (w : A → ℕ) (l xs : List A) (x : A) (ys : List A)
    → l ≡ xs ++ x ∷ ys
    → total w l ≡ total w (xs ++ ys) + w x
total-split w l xs x ys e = rw e (omega (arith, total-append w xs (x ∷ ys), total-append w xs ys))

pub then_first_assoc :
    (x y z : First) → then_first (then_first x y) z ≡ then_first x (then_first y z)
then_first_assoc nothing y z = refl
then_first_assoc opens y z = refl
then_first_assoc closes y z = refl

pub then_first-nothing : (x : First) → then_first x nothing ≡ x
then_first-nothing nothing = refl
then_first-nothing opens = refl
then_first-nothing closes = refl

module _ (j k : ℕ) {T : Type 0} where
  pub first-append :
      (xs ys : List (Message T)) → first j k (xs ++ ys) ≡ then_first (first j k xs) (first j k ys)
  first-append [] ys = refl
  first-append (x ∷ xs) ys =
      rw (first-append xs ys) (sym (then_first_assoc (stage j k x) (first j k xs) (first j k ys)))

  pub stage_unheard : (m : Message T) → of_message j m ≡ 0 → stage j k m ≡ nothing
  stage_unheard (Message.response id (Response.value i x)) h = refl
  stage_unheard (Message.response id (Response.stream i StreamResponse.open_)) h = ground arith
  stage_unheard (Message.response id (Response.stream i StreamResponse.closed)) h = ground arith
  stage_unheard (Message.response id (Response.stream i (StreamResponse.item x))) h = refl
  stage_unheard Message.aborted h = refl
  stage_unheard Message.shutdown h = refl

  pub first_unheard : (ms : List (Message T)) → total (of_message j) ms ≡ 0 → first j k ms ≡ nothing
  first_unheard [] h = refl
  first_unheard (m ∷ ms) h = rw (stage_unheard m (omega arith)) (first_unheard ms (omega arith))

pub served-le-live : (j k : ℕ) (ts : List Task) → total (of_served j k) ts ≤ total (of_live j) ts
served-le-live j k [] = omega arith
served-le-live j k (starting id i ∷ ts) = omega (arith, served-le-live j k ts)
served-le-live j k (serving id i ∷ ts) = ground (arith, served-le-live j k ts)
