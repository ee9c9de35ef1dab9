-- ===== src/System/Consuming.antt =====
-- The consumer's rounds in the system: a message that it receives, a request that it takes.
use zzrpc.Prelude.{
  ℕ, ◌+◌, ◌≤◌, ◌≡◌, ◌⊎◌, refl, ap, inl, inr, one, total, total-append, true, false, ◌==◌, ==_iff,
  Bool-cases, Option, some, List, [], ◌∷◌, ◌++◌, arith,
}
use zzrpc.Rpc.{TransportError}
use zzrpc.Message.{Payload, Message, ResultSender}
use zzrpc.Consumer.State.{Effect, send_message}
use zzrpc.Consumer.Take.{continue_}
use zzrpc.Consumer.Handle.{handle_message}
use zzrpc.Consumer.Loop.{Event, Received, received, Settings, Taken, step, reset_if}
use zzrpc.Consumer.Unused.{Unused, respond-Unused, take_request-Unused}
use zzrpc.Consumer.Tables.{IsDistinct}
use zzrpc.Consumer.Waiting.{take_request-other, abort-waiting, abort-Unused}
use zzrpc.System.{
  Sent, asks, aborts, channel_of, message_of, sender_of, System, delivered, other_event, taken,
  after_round,
}
use zzrpc.System.Counts.{
  then_first, of_call, of_sent, of_request, of_message, stage, first, asked, served, waits, IsSound,
  total-split, then_first_assoc, served-le-live,
}
use zzrpc.System.Network.{shrink, build}
use zzrpc.System.Tasks.{silent-first}
use zzrpc.System.Rounds.{delivered-le, other-same, respond-order}

sent-request : {R : Type 0} (j : ℕ) (x : Sent R) → of_request j (message_of x) ≡ of_sent j x
sent-request j (asks i id r sender) = refl
sent-request j (aborts i id) = refl

module _ (j k : ℕ) {R T E S P : Type 0} (c : Settings E S) where
  pub receive-IsSound :
      (s : System R T S P) (m : Message T) (ms : List (Message T))
      → s.to_consumer ≡ m ∷ ms
      → let round = step {R = R} c s.callback s.consumer (received (some (Received.ok m))) in
        round.flow ≡ continue_
        → IsDistinct s.consumer
        → IsSound j k s
        → IsSound j k (record (after_round s round) { to_consumer = ms })
  unfolding step handle_message
  receive-IsSound s (Message.response id r) ms e goes d sound =
      let left = ap (total (of_message j)) e in
      build j k s _ (respond-Unused j R T E s.consumer id r) (omega arith) (omega arith)
        (omega arith) (omega arith) (omega (arith, left))
        (respond-order R T E s.consumer d k (served j k s)
          (then_first (first j k ms) (first j k s.replies)) j id r
          (rw
            (
              e,
              then_first_assoc (stage j k (Message.response id r)) (first j k ms)
                  (first j k s.replies),
            )
            at sound.order))
        sound
  receive-IsSound s Message.aborted ms e goes d sound = cc
  receive-IsSound s Message.shutdown ms e goes d sound = cc

  pub other-IsSound :
      (s : System R T S P) (event : Event R T E)
      → other_event event ≡ true
      → (step c s.callback s.consumer event).flow ≡ continue_
      → IsSound j k s
      → IsSound j k (after_round s (step c s.callback s.consumer event))
  other-IsSound s event h goes sound =
      let same = other-same R T E S c s.callback s.consumer event h goes in
      shrink j k s _ (λ u. rw same u) (rw same (omega arith)) (omega arith) (omega arith)
        (omega arith) (omega arith) (omega arith) (omega arith) refl sound

  -- The state after the consumer took a request.
  abbrev pub after_take :
      System R T S P
      → List (Sent R)
      → Sent R
      → Option (TransportError E)
      → List (Sent R)
      → System R T S P
  after_take s xs x failure ys =
      record (after_round s (step {T = T} c s.callback s.consumer (taken x failure))) {
        channel = xs ++ ys;
        to_producer = s.to_producer ++ delivered (message_of x) failure;
      }

  -- The request moves to the transport, or is lost there.
  take_smaller :
      (s : System R T S P) (xs ys : List (Sent R)) (x : Sent R)
      (failure : Option (TransportError E))
      → s.channel ≡ xs ++ x ∷ ys
      → (Unused j s.consumer → Unused j (after_take s xs x failure ys).consumer)
      → waits j k (after_take s xs x failure ys).consumer ≤ waits j k s.consumer
      → IsSound j k s
      → IsSound j k (after_take s xs x failure ys)
  take_smaller s xs ys x failure e u w sound =
      let left = total-split (of_sent j) s.channel xs x ys e in
      let came = total-append (of_request j) s.to_producer (delivered (message_of x) failure) in
      let less = delivered-le j (message_of x) failure in
      shrink j k s _ u w (omega arith) (omega (arith, left))
        (omega (arith, left, came, less, sent-request j x)) (omega arith) (omega arith)
        (omega arith) refl sound

  take-other :
      (s : System R T S P) (xs ys : List (Sent R)) (x : Sent R)
      (failure : Option (TransportError E))
      → s.channel ≡ xs ++ x ∷ ys
      → ((message_of x).id == j) ≡ false
      → IsSound j k s
      → IsSound j k (after_take s xs x failure ys)
  unfolding step
  take-other s xs ys x failure e ne sound =
      let effects : List (Effect R T E) =
        reset_if c.has_timeout ++ send_message (message_of x) ∷ [] in
      let t : Taken R E = record {
        message = message_of x;
        result_sender = sender_of x;
        failure = failure;
      } in
      take_smaller s xs ys x failure e
        (take_request-Unused j R T E S s.callback effects s.consumer (channel_of x) t ne)
        (rw (take_request-other R T E S s.callback effects s.consumer (channel_of x) t j k ne)
          (omega arith))
        sound

  take-abort :
      (s : System R T S P) (xs ys : List (Sent R)) (i : ℕ) (failure : Option (TransportError E))
      → s.channel ≡ xs ++ aborts i j ∷ ys
      → IsDistinct s.consumer
      → IsSound j k s
      → IsSound j k (after_take s xs (aborts i j) failure ys)
  unfolding step
  take-abort s xs ys i failure e d sound =
      let effects : List (Effect R T E) =
        reset_if c.has_timeout ++ send_message (message_of (aborts i j)) ∷ [] in
      take_smaller s xs ys (aborts i j) failure e
        (abort-Unused R T E S s.callback effects s.consumer i j Payload.abort failure)
        (abort-waiting R T E S s.callback effects s.consumer i j k Payload.abort failure d) sound

  asked-once :
      (s : System R T S P) (xs ys : List (Sent R)) (x : Sent R)
      → s.channel ≡ xs ++ x ∷ ys
      → of_sent j x ≡ 1
      → IsSound j k s
      → (¬ (s.next_id ≤ j)) × (¬ (1 ≤ total (of_call j) s.unsent + total (of_sent j) (xs ++ ys)))
  asked-once s xs ys x e o sound =
      let left = total-split (of_sent j) s.channel xs x ys e in
      (λ q. omega (arith, sound.used q), λ q. omega (arith, sound.once))

  take-request :
      (s : System R T S P) (xs ys : List (Sent R)) (i : ℕ) (r : R) (sender : ResultSender)
      (failure : Option (TransportError E))
      → s.channel ≡ xs ++ asks i j r sender ∷ ys
      → IsSound j k s
      → IsSound j k (after_take s xs (asks i j r sender) failure ys)
  take-request s xs ys i r sender failure e sound =
      let x : Sent R = asks i j r sender in
      let left = total-split (of_sent j) s.channel xs x ys e in
      let came = total-append (of_request j) s.to_producer (delivered (message_of x) failure) in
      let less = delivered-le j (message_of x) failure in
      let here : one j j ≡ 1 = ground arith in
      let before : 1 ≤ asked j s = omega arith in
      record {
        used = λ q. absurd (omega (arith, sound.used q));
        unused = unused';
        once = omega (arith, sound.once);
        silent = λ q. sound.silent (omega arith);
        order = inr (
            inr (
              silent-first j k s sound (omega arith),
              omega (arith, served-le-live j k s.tasks, sound.once),
            ));
      }
    where
      unused' :
          (s.next_id ≤ j) ⊎ (1 ≤ asked j (after_take s xs (asks i j r sender) failure ys))
          → Unused j (after_take s xs (asks i j r sender) failure ys).consumer
      unused' (inl q) = absurd ((asked-once s xs ys (asks i j r sender) e (ground arith) sound).0 q)
      unused' (inr q) = absurd ((asked-once s xs ys (asks i j r sender) e (ground arith) sound).1 q)

  pub take-IsSound :
      (s : System R T S P) (xs ys : List (Sent R)) (x : Sent R)
      (failure : Option (TransportError E))
      → s.channel ≡ xs ++ x ∷ ys
      → IsDistinct s.consumer
      → IsSound j k s
      → IsSound j k (after_take s xs x failure ys)
  take-IsSound s xs ys (asks i id r sender) failure e d sound = elim (Bool-cases (id == j)) [
    | inl eq ↦
        let same = (==_iff id j).0 eq in
        rw same (take-request s xs ys i r sender failure (rw same at e) sound)
    | inr ne ↦ take-other s xs ys (asks i id r sender) failure e ne sound
  ]
  take-IsSound s xs ys (aborts i id) failure e d sound = elim (Bool-cases (id == j)) [
    | inl eq ↦
        let same = (==_iff id j).0 eq in
        rw same (take-abort s xs ys i failure (rw same at e) d sound)
    | inr ne ↦ take-other s xs ys (aborts i id) failure e ne sound
  ]
