-- ===== src/Producer/Forwarder/Laws.antt =====
-- What the forwarding task sends, and when it stops the producer.
use zzrpc.Prelude.{
  ◌≡◌, refl, ap, sym, ◌∙◌, ◌⊎◌, inl, inr, Option, none, some, Bool, true, false, not, ◌&&◌, ◌||◌,
  List, [], ◌∷◌, ◌++◌, map, arith, if◌then◌else◌,
}
use zzrpc.Rpc.{
  ShutdownType, HandlingStrategy, stop, ignore, TransportError, SendErrorCallback,
  default_on_send_error,
}
use zzrpc.Message.{Message}
use zzrpc.Producer.Forwarder.{
  ForwardEffect, send_message, send_stop, Forward, after_error, after_send, forward, forward_all,
}

module _ {T : Type 0} where
  -- The messages that are handed to the transport, and the stops that are sent.
  abbrev pub sent : List (ForwardEffect T) → List (Message T)
  sent [] = []
  sent (send_message m ∷ effects) = m ∷ sent effects
  sent (send_stop cause ∷ effects) = sent effects

  abbrev pub stops : List (ForwardEffect T) → List ShutdownType
  stops [] = []
  stops (send_message m ∷ effects) = stops effects
  stops (send_stop cause ∷ effects) = cause ∷ stops effects

  sent-append : (xs ys : List (ForwardEffect T)) → sent (xs ++ ys) ≡ sent xs ++ sent ys
  sent-append [] ys = refl
  sent-append (send_message m ∷ xs) ys = ap (λ l. m ∷ l) (sent-append xs ys)
  sent-append (send_stop cause ∷ xs) ys = sent-append xs ys

  stops-append : (xs ys : List (ForwardEffect T)) → stops (xs ++ ys) ≡ stops xs ++ stops ys
  stops-append [] ys = refl
  stops-append (send_message m ∷ xs) ys = stops-append xs ys
  stops-append (send_stop cause ∷ xs) ys = ap (λ l. cause ∷ l) (stops-append xs ys)

module _ {T E : Type 0} where
  abbrev pub is_closed_response : Message T × Option (TransportError E) → Bool
  is_closed_response (Message.response id r, some TransportError.closed) = true
  is_closed_response _ = false

  -- Whether a response failed because the transport is closed.
  abbrev pub any_closed : List (Message T × Option (TransportError E)) → Bool
  any_closed [] = false
  any_closed (r ∷ rs) = is_closed_response r || any_closed rs

-- At most one stop, and none once the stop sender is used.
abbrev AtMost : {T S : Type 0} → Bool → Forward S × List (ForwardEffect T) → Type 0
AtMost can_stop (f, effects) =
    ((stops effects ≡ []) × (f.can_stop ≡ can_stop))
    ⊎ ((cause : ShutdownType) × (can_stop ≡ true)
        × (stops effects ≡ cause ∷ [])
        × (f.can_stop ≡ false))

after_error-AtMost :
    (T : Type 0) {E S : Type 0} (on_send_error : SendErrorCallback S E) (can_stop : Bool)
    (a : HandlingStrategy × S)
    → AtMost {T = T} can_stop (after_error on_send_error can_stop a)
unfolding after_error
after_error-AtMost T on_send_error true (stop cause, cb) = inr (cause, refl, refl, refl)
after_error-AtMost T on_send_error false (stop cause, cb) = inl (refl, refl)
after_error-AtMost T on_send_error true (ignore, cb) = inl (refl, refl)
after_error-AtMost T on_send_error false (ignore, cb) = inl (refl, refl)

module _ {T E S : Type 0} (on_send_error : SendErrorCallback S E) where
  after_error-quiet :
      (can_stop : Bool) (a : HandlingStrategy × S)
      → sent {T = T} (after_error on_send_error can_stop a).1 ≡ []
  unfolding after_error
  after_error-quiet true (stop cause, cb) = refl
  after_error-quiet false (stop cause, cb) = refl
  after_error-quiet true (ignore, cb) = refl
  after_error-quiet false (ignore, cb) = refl

  after_send-quiet :
      (f : Forward S) (m : Message T) (failure : Option (TransportError E))
      → sent (after_send on_send_error f m failure).1 ≡ []
  unfolding after_send
  after_send-quiet f (Message.response id r) (some e) =
      after_error-quiet f.can_stop (on_send_error f.callback id e)
  after_send-quiet f (Message.response id r) none = refl
  after_send-quiet f Message.aborted failure = refl
  after_send-quiet f Message.shutdown failure = refl

  after_send-AtMost :
      (f : Forward S) (m : Message T) (failure : Option (TransportError E))
      → AtMost f.can_stop (after_send on_send_error f m failure)
  unfolding after_send
  after_send-AtMost f (Message.response id r) (some e) =
      after_error-AtMost T on_send_error f.can_stop (on_send_error f.callback id e)
  after_send-AtMost f (Message.response id r) none = inl (refl, refl)
  after_send-AtMost f Message.aborted failure = inl (refl, refl)
  after_send-AtMost f Message.shutdown failure = inl (refl, refl)

  AtMost-append :
      (b : Bool) (x y : Forward S × List (ForwardEffect T))
      → AtMost b x
      → AtMost x.0.can_stop y
      → AtMost b (y.0, x.1 ++ y.1)
  AtMost-append b x y (inl (p, q)) (inl (r, t)) = inl (stops-append x.1 y.1 ∙ rw (p, r), t ∙ q)
  AtMost-append b x y (inl (p, q)) (inr (cause, r, t, u)) =
      inr (cause, sym q ∙ r, stops-append x.1 y.1 ∙ rw (p, t), u)
  AtMost-append b x y (inr (cause, p, q, r)) (inl (t, u)) =
      inr (cause, p, stops-append x.1 y.1 ∙ rw (q, t), u ∙ r)
  AtMost-append b x y (inr (cause, p, q, r)) (inr (cause', t, u, v)) = cc

  -- The forwarding task hands every reply to the transport, once and in order, whatever errors
  -- occur. However often the callback answers `Stop`, one stop is sent at most, while the stop
  -- sender is there, which it is not afterwards; without a stop it stays as it was.
  pub forward_all-sends :
      (f : Forward S) (rs : List (Message T × Option (TransportError E)))
      → let (f', effects) = forward_all on_send_error f rs in
        (sent effects ≡ map (λ r. r.0) rs)
        × (((stops effects ≡ []) × (f'.can_stop ≡ f.can_stop))
            ⊎ ((cause : ShutdownType) × (f.can_stop ≡ true)
                × (stops effects ≡ cause ∷ [])
                × (f'.can_stop ≡ false)))
  unfolding forward_all forward
  forward_all-sends f [] = (refl, inl (refl, refl))
  forward_all-sends f ((m, failure) ∷ rs) =
      let x = after_send on_send_error f m failure in
      let later = forward_all-sends x.0 rs in
      (
        ap (λ l. m ∷ l)
            (sent-append x.1 (forward_all on_send_error x.0 rs).1
              ∙ rw (after_send-quiet f m failure, later.0)),
        AtMost-append f.can_stop x (forward_all on_send_error x.0 rs)
            (after_send-AtMost f m failure) later.1,
      )

after_default :
    {T E : Type 0} (f : Forward (Unit {0})) (m : Message T) (failure : Option (TransportError E))
    → let (f', effects) = after_send default_on_send_error f m failure in
      let hit = f.can_stop && is_closed_response (m, failure) in
      (stops effects ≡ (if hit then ShutdownType.closed ∷ [] else []))
      × (f'.can_stop ≡ f.can_stop && not hit)
unfolding after_send default_on_send_error
after_default f (Message.response id r) none = ground arith
after_default f (Message.response id r) (some TransportError.closed) = ground arith
after_default f (Message.response id r) (some (TransportError.other e)) = ground arith
after_default f Message.aborted failure = ground arith
after_default f Message.shutdown failure = ground arith

-- With the default callback the producer is told to stop, with `Closed`, exactly when the stop
-- sender is still there and a response could not be sent because the transport is closed. Other
-- errors are ignored, and so is every error in sending the last messages `Aborted` and `Shutdown`.
pub default_stops :
    {T E : Type 0} (f : Forward (Unit {0})) (rs : List (Message T × Option (TransportError E)))
    → stops (forward_all default_on_send_error f rs).1
      ≡ (if f.can_stop && any_closed rs then ShutdownType.closed ∷ [] else [])
unfolding forward_all forward
default_stops f [] = ground arith
default_stops f ((m, failure) ∷ rs) =
    let (f', effects) = after_send default_on_send_error f m failure in
    let later = (forward_all default_on_send_error f' rs).1 in
    ground (arith, stops-append effects later, after_default f m failure, default_stops f' rs)
