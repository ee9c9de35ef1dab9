-- ===== src/System/Panics.antt =====
-- The consumer's task never reaches its `unreachable!`.
use zzrpc.Prelude.{
  ℕ, ◌+◌, ◌≡◌, refl, sym, subst, ◌∙◌, Bool, true, false, Option, none, some, Option-cases, inl, inr,
  List, [], ◌∷◌, ◌++◌, get_elem?,
}
use zzrpc.Rpc.{TransportError}
use zzrpc.Message.{Request, Message, ResultSender}
use zzrpc.Client.Sending.{first_sent, value-first_sent, stream-first_sent}
use zzrpc.Consumer.State.{Effect, send_message, Slot, values, streams, State}
use zzrpc.Consumer.Handle.{handle_message}
use zzrpc.Consumer.Take.{continue_, request_slot}
use zzrpc.Consumer.Loop
use zzrpc.Consumer.Loop.{Taken, received, Received, take_request, step, reset_if}
use zzrpc.Consumer.Kinds.{
  slot_kind, HasKinds, new-HasKinds, respond-HasKinds, take_request-HasKinds,
}
use zzrpc.Producer.Loop as Main
use zzrpc.System.{
  Sent, asks, aborts, channel_of, message_of, sender_of, taken, System, Step, poll, abort, take,
  receive, other, Reach, start, later,
}
use zzrpc.System.Rounds.{other-same}

abbrev pub sender_fits : Bool → ResultSender → Bool
sender_fits false (ResultSender.value sender) = true
sender_fits true (ResultSender.stream sender items) = true
sender_fits _ _ = false

-- What the first poll of a future sends has a sender of its kind.
first_sent-fits :
    {R : Type 0} (T E : Type 0) (b : Bool) (id : ℕ) (r : R) (n : ℕ) (m : Request R)
    (sender : ResultSender)
    → first_sent T E b id r n ≡ (m, sender) ∷ []
    → sender_fits b sender ≡ true
first_sent-fits T E false id r n m sender e =
    let whole = sym (value-first_sent T E id r n) ∙ e in
    let same : ResultSender.value n ≡ sender = cc in
    subst (λ x. sender_fits false x ≡ true) same refl
first_sent-fits T E true id r n m sender e =
    let whole = sym (stream-first_sent T E id r n) ∙ e in
    let same : ResultSender.stream n (n + 1) ≡ sender = cc in
    subst (λ x. sender_fits true x ≡ true) same refl

-- A sender of the kind of the method, or an abort for a method.
abbrev Fits : {R : Type 0} → List Bool → Sent R → Type 0
Fits kinds (asks k id r sender) =
    (b : Bool) × (get_elem? kinds k ≡ some b) × (sender_fits b sender ≡ true)
Fits kinds (aborts k id) = (b : Bool) × (get_elem? kinds k ≡ some b)

abbrev AllFit : {R : Type 0} → List Bool → List (Sent R) → Type 0
AllFit kinds [] = Unit {0}
AllFit kinds (x ∷ xs) = Fits kinds x × AllFit kinds xs

module _ {R : Type 0} (kinds : List Bool) where
  AllFit-append :
      (xs ys : List (Sent R)) → AllFit kinds xs → AllFit kinds ys → AllFit kinds (xs ++ ys)
  AllFit-append [] ys p q = q
  AllFit-append (x ∷ xs) ys p q = (p.0, AllFit-append xs ys p.1 q)

  AllFit-split :
      (xs : List (Sent R)) (x : Sent R) (ys : List (Sent R))
      → AllFit kinds (xs ++ x ∷ ys)
      → Fits kinds x × AllFit kinds (xs ++ ys)
  AllFit-split [] x ys p = p
  AllFit-split (y ∷ xs) x ys p = let (a, b) = AllFit-split xs x ys p.1 in (a, (p.0, b))

slot-continue_ :
    (R T E : Type 0) (p : ℕ) (slot : Slot) (id : ℕ) (b : Bool) (sender : ResultSender)
    (f : Option (TransportError E))
    → slot_kind slot ≡ b
    → sender_fits b sender ≡ true
    → (request_slot {R = R} {T = T} p slot id sender f).1 ≡ continue_
unfolding request_slot
slot-continue_ R T E p (values t) id false (ResultSender.value s) f k h = refl
slot-continue_ R T E p (streams t) id true (ResultSender.stream s x) f k h = refl
slot-continue_ R T E p (values t) id true (ResultSender.value s) f k h = cc
slot-continue_ R T E p (streams t) id false (ResultSender.stream s x) f k h = cc
slot-continue_ R T E p (values t) id true (ResultSender.stream s x) f k h = cc
slot-continue_ R T E p (values t) id false (ResultSender.stream s x) f k h = cc
slot-continue_ R T E p (streams t) id true (ResultSender.value s) f k h = cc
slot-continue_ R T E p (streams t) id false (ResultSender.value s) f k h = cc
slot-continue_ R T E p slot id true ResultSender.abort f k h = cc
slot-continue_ R T E p slot id false ResultSender.abort f k h = cc

abort-continue_ :
    (R T E : Type 0) (p : ℕ) (slot : Slot) (id : ℕ) (f : Option (TransportError E))
    → (request_slot {R = R} {T = T} p slot id ResultSender.abort f).1 ≡ continue_
unfolding request_slot
abort-continue_ R T E p (values t) id f = refl
abort-continue_ R T E p (streams t) id f = refl

no_slot :
    {R : Type 0} (kinds : List Bool) (x : Sent R)
    → none ≡ get_elem? kinds (channel_of x)
    → ¬ (Fits kinds x)
no_slot kinds (asks k id r sender) e (b, at, fits) = cc
no_slot kinds (aborts k id) e (b, at) = cc

module _ {R E : Type 0} (T S : Type 0) (kinds : List Bool) where
  Fits-continue_ :
      (p : ℕ) (slot : Slot) (x : Sent R) (f : Option (TransportError E))
      → some (slot_kind slot) ≡ get_elem? kinds (channel_of x)
      → Fits kinds x
      → (request_slot {R = R} {T = T} p slot (message_of x).id (sender_of x) f).1 ≡ continue_
  Fits-continue_ p slot (asks k id r sender) f e (b, at, fits) =
      let same : slot_kind slot ≡ b = cc in slot-continue_ R T E p slot id b sender f same fits
  Fits-continue_ p slot (aborts k id) f e at = abort-continue_ R T E p slot id f

  flow-continue_ :
      (cb : S) (effects : List (Effect R T E)) (s : State) (x : Sent R)
      (failure : Option (TransportError E))
      → HasKinds kinds s
      → Fits kinds x
      → (take_request cb effects s
          (channel_of x)
          (record { message = message_of x; result_sender = sender_of x; failure = failure })).flow
        ≡ continue_
  unfolding take_request
  flow-continue_ cb effects s x failure h fits =
      elim (Option-cases (get_elem? s.slots (channel_of x))) [
        | inl e ↦ absurd (no_slot kinds x (rw e at (h (channel_of x))) fits)
        | inr (slot, e) ↦
            rw (e, take_request)
              (Fits-continue_ s.pending slot x failure (rw e at (h (channel_of x))) fits)
      ]

module _ {R T E F S P : Type 0} (kinds : List Bool) (method_of : R → ℕ) (c : Loop.Settings E S)
    (d : Main.Settings F P) where
  Step-HasKinds :
      {s t : System R T S P}
      → Step kinds method_of c d s t
      → HasKinds kinds s.consumer
      → HasKinds kinds t.consumer
  unfolding step handle_message
  Step-HasKinds {s} (take xs ys x failure e first goes) h =
      take_request-HasKinds R T E kinds s.callback
        (reset_if c.has_timeout ++ send_message (message_of x) ∷ []) s.consumer (channel_of x)
        (record { message = message_of x; result_sender = sender_of x; failure = failure }) h
  Step-HasKinds {s} (receive (Message.response id r) ms e goes) h =
      respond-HasKinds R T E kinds s.consumer id r h
  Step-HasKinds (receive Message.aborted ms e goes) h = cc
  Step-HasKinds (receive Message.shutdown ms e goes) h = cc
  Step-HasKinds {s} (other event o goes) h =
      rw (other-same R T E S c s.callback s.consumer event o goes) h
  Step-HasKinds _ h = h

  Step-AllFit :
      {s t : System R T S P}
      → Step kinds method_of c d s t
      → AllFit kinds s.channel
      → AllFit kinds t.channel
  Step-AllFit {s} (poll n xs ys id r sender b e at sends) h =
      AllFit-append kinds s.channel (asks (method_of r) id r sender ∷ []) h
        ((b, at, first_sent-fits T E b id r n _ sender sends), tt)
  Step-AllFit {s} (abort m id b at old) h =
      AllFit-append kinds s.channel (aborts m id ∷ []) h ((b, at), tt)
  Step-AllFit {s} (take xs ys x failure e first goes) h = (AllFit-split kinds xs x ys (rw e at h)).1
  Step-AllFit _ h = h

  module _ {cb : S} {its_cb : P} where
    Reach-HasKinds :
        {s : System R T S P} → Reach kinds method_of c d cb its_cb s → HasKinds kinds s.consumer
    Reach-HasKinds start = new-HasKinds kinds
    Reach-HasKinds (later r x) = Step-HasKinds x (Reach-HasKinds r)

    Reach-AllFit :
        {s : System R T S P} → Reach kinds method_of c d cb its_cb s → AllFit kinds s.channel
    Reach-AllFit start = tt
    Reach-AllFit (later r x) = Step-AllFit x (Reach-AllFit r)

    -- In every state that the whole program can reach, a request that the first poll of a future
    -- sent, or an abort, on the channel of its method never ends the task of the consumer, whether
    -- the transport takes its message or not: it meets a table, and one of its own kind. So the
    -- arms with `unreachable!` are not reached.
    pub take_goes_on :
        {s : System R T S P} (xs ys : List (Sent R)) (x : Sent R)
        (failure : Option (TransportError E))
        → Reach kinds method_of c d cb its_cb s
        → s.channel ≡ xs ++ x ∷ ys
        → (step {T = T} c s.callback s.consumer (taken x failure)).flow ≡ continue_
    unfolding step
    take_goes_on {s} xs ys x failure r e =
        let effects =
          reset_if {R = R} {T = T} {E = E} c.has_timeout ++ send_message (message_of x) ∷ [] in
        flow-continue_ T S kinds s.callback effects s.consumer x failure (Reach-HasKinds r)
          (AllFit-split kinds xs x ys (rw e at (Reach-AllFit r))).0
