-- ===== src/System/Fresh.antt =====
-- The ids of the log are those of calls, and grow with it.
use zzrpc.Prelude.{
  ℕ, ◌+◌, ◌≤◌, ◌≡◌, ◌⊎◌, inl, inr, one, total, total-append, Bool, false, ◌==◌, none, some, List,
  [], ◌∷◌, ◌++◌, arith,
}
use zzrpc.Prelude.Table.{Table, lookup}
use zzrpc.Message.{ResultSender}
use zzrpc.Consumer.Loop
use zzrpc.Producer.Loop as Main
use zzrpc.System.{Sent, System, Step, call, poll, finish, serve}
use zzrpc.System.Counts.{of_call, IsSound, one-cases, total-split}
use zzrpc.System.Log.{Log, step_log}
use zzrpc.System.Growth.{Grows, Grows-refl, called-Grows, senders-Grows, given-Grows}

-- Ids to come are in neither table of the log, and those of futures that were not polled have no
-- sender.
pub record IsFresh {R T S P : Type 0} (l : Log R T) (s : System R T S P) : Type 0 where
  pub called : (j : ℕ) → s.next_id ≤ j → lookup j l.called ≡ none
  pub senders :
      (j : ℕ) → (s.next_id ≤ j) ⊎ (1 ≤ total (of_call j) s.unsent) → lookup j l.senders ≡ none

pub lookup_top : {A : Type 0} (id : ℕ) (x : A) (t : Table A) → lookup id ((id, x) ∷ t) ≡ some x
unfolding lookup
lookup_top id x t = ground arith

lookup_below :
    {A : Type 0} (id : ℕ) (x : A) (t : Table A) (j : ℕ)
    → (id == j) ≡ false
    → lookup j t ≡ none
    → lookup j ((id, x) ∷ t) ≡ none
unfolding lookup
lookup_below id x t j ne h = ground arith

module _ {R T S P : Type 0} (l : Log R T) (s : System R T S P) where
  call-IsFresh :
      (r : R)
      → IsFresh l s
      → IsFresh
          (record l { called = (s.next_id, r) ∷ l.called })
          (record s { next_id = s.next_id + 1; unsent = s.unsent ++ (s.next_id, r) ∷ [] })
  call-IsFresh r f = record {
    called = λ j le. lookup_below s.next_id r l.called j (ground arith) (f.called j (omega arith));
    senders = λ j. senders' j;
  }
    where
      senders' :
          (j : ℕ)
          → (s.next_id + 1 ≤ j) ⊎ (1 ≤ total (of_call j) (s.unsent ++ (s.next_id, r) ∷ []))
          → lookup j l.senders ≡ none
      senders' j (inl le) = f.senders j (inl (omega arith))
      senders' j (inr le) =
          let came = total-append (of_call j) s.unsent ((s.next_id, r) ∷ []) in
          elim (one-cases j s.next_id) [
            | inl (eq, o) ↦ f.senders j (inl (omega arith))
            | inr (ne, o) ↦ f.senders j (inr (omega (arith, came)))
          ]

  poll-IsFresh :
      (xs ys : List (ℕ × R)) (id : ℕ) (r : R) (sender : ResultSender) (channel : List (Sent R))
      → s.unsent ≡ xs ++ (id, r) ∷ ys
      → ((j : ℕ) → IsSound j 0 s)
      → IsFresh l s
      → IsFresh
          (record l { senders = (id, sender) ∷ l.senders })
          (record s { unsent = xs ++ ys; channel = channel })
  poll-IsFresh xs ys id r sender channel e sound f = record {
    called = f.called;
    senders = λ j h. senders' j h;
  }
    where
      senders' :
          (j : ℕ)
          → (s.next_id ≤ j) ⊎ (1 ≤ total (of_call j) (xs ++ ys))
          → lookup j ((id, sender) ∷ l.senders) ≡ none
      senders' j h =
          let left = total-split (of_call j) s.unsent xs (id, r) ys e in
          elim (one-cases j id) [
            | inl (eq, o) ↦ elim h [
              | inl le ↦ absurd (omega (arith, left, (sound j).used le))
              | inr le ↦ absurd (omega (arith, left, (sound j).once))
            ]
            | inr (ne, o) ↦ elim h [
              | inl le ↦ lookup_below id sender l.senders j (ground arith) (f.senders j (inl le))
              | inr le ↦
                  lookup_below id sender l.senders j (ground arith)
                    (f.senders j (inr (omega (arith, left))))
            ]
          ]

module _ {R T E F S P : Type 0} (kinds : List Bool) (method_of : R → ℕ) (c : Loop.Settings E S)
    (d : Main.Settings F P) where
  pub Step-IsFresh :
      {s t : System R T S P} (l : Log R T) (x : Step kinds method_of c d s t)
      → ((j : ℕ) → IsSound j 0 s)
      → IsFresh l s
      → IsFresh (step_log x l) t
  Step-IsFresh {s} l (call r small) sound f = call-IsFresh l s r f
  Step-IsFresh {s} l (poll n xs ys id r sender b e at fits) sound f =
      poll-IsFresh l s xs ys id r sender _ e sound f
  Step-IsFresh l _ sound f = record { called = f.called; senders = f.senders }

  pub Step-Grows :
      {s t : System R T S P} (l : Log R T) (x : Step kinds method_of c d s t)
      → IsFresh l s
      → Grows l (step_log x l)
  Step-Grows {s} l (call r small) f = called-Grows l s.next_id r (f.called s.next_id (omega arith))
  Step-Grows {s} l (poll n xs ys id r sender b e at fits) f =
      let left = total-split (of_call id) s.unsent xs (id, r) ys e in
      let here : one id id ≡ 1 = ground arith in
      senders-Grows l id sender (f.senders id (inr (omega (arith, left))))
  Step-Grows l (finish xs ys id k x e at) f = given-Grows l (id, k, x)
  Step-Grows l (serve xs ys id k x e) f = given-Grows l (id, k, x)
  Step-Grows l _ f = Grows-refl l
