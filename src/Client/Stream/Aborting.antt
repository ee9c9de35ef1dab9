-- ===== src/Client/Stream/Aborting.antt =====
-- One aborter for a stream request and for the stream that it becomes.
use zzrpc.Prelude.{
  ℕ, ◌≡◌, refl, ap, ◌∙◌, Bool, true, false, Option, none, some, Bool-cases, inl, inr, get_elem?,
  length,
}
use zzrpc.Rpc.Timeout.{Poll, ready, pending}
use zzrpc.Message.{Result, Request, Payload, ResultSender}
use zzrpc.Client.Channels.{Channels, ChannelLaws, Store, is_aborted, flat}
use zzrpc.Client.Aborter.{Aborter, Handle, aborter, abort}
use zzrpc.Client.Aborting.{aborter_fresh, abort_full}
use zzrpc.Client.Stream.{
  StreamRequest, no_handle, aborter_of, poll, first_result, after_send, next_result, resume,
}
use zzrpc.Client.Stream.Items
use zzrpc.Client.Stream.Items.{Stream}
use zzrpc.Client.Stream.Laws.{poll_next-outcome}

module _ {R T E : Type 0} (c : Channels R T E) where
  -- A stream that a poll returned has the id, the aborter and the abort receiver of its request.
  abbrev Inherits : StreamRequest R → Poll (Result Stream E) × StreamRequest R → Type 0
  Inherits me (ready (Result.ok stream), me') = (stream.id ≡ me.id) × (stream.handle ≡ me.handle)
  Inherits me _ = Unit {0}

  first_result-Inherits :
      (me : StreamRequest R) (ch items : ℕ) (p : Poll (Option (Result (Unit {0}) E)))
      (s : Store c.World)
      → Inherits me (first_result c me ch items p s).0
  unfolding first_result
  first_result-Inherits me ch items (ready none) s = tt
  first_result-Inherits me ch items (ready (some r)) s = (refl, refl)
  first_result-Inherits me ch items pending s = tt

  after_send-Inherits :
      (me : StreamRequest R) (ch items : ℕ) (sent : Bool) (s : Store c.World)
      → Inherits me (after_send c me ch items sent s).0
  unfolding after_send
  after_send-Inherits me ch items true s = first_result-Inherits me ch items _ _
  after_send-Inherits me ch items false s = tt

  next_result-Inherits :
      (me : StreamRequest R) (ch : ℕ) (p : Poll (Option (Result (Unit {0}) E))) (s : Store c.World)
      → Inherits me (next_result c me ch p s).0
  unfolding next_result
  next_result-Inherits me ch (ready none) s = tt
  next_result-Inherits me ch (ready (some r)) s = (refl, refl)
  next_result-Inherits me ch pending s = tt

  resume-Inherits :
      (me : StreamRequest R) (request : Option R) (receiver : Option ℕ) (s : Store c.World)
      → Inherits me (resume c me request receiver s).0
  unfolding resume
  resume-Inherits me (some request) receiver s = after_send-Inherits me _ _ _ _
  resume-Inherits me none (some ch) s = next_result-Inherits me ch _ _
  resume-Inherits me none none s = tt

  poll-Inherits : (me : StreamRequest R) (s : Store c.World) → Inherits me (poll c me s).0
  unfolding poll
  poll-Inherits me s = elim (Bool-cases (is_aborted c me.abort_receiver s).0) [
    | inl e ↦ rw e tt
    | inr e ↦
        rw e (resume-Inherits me me.request me.result_receiver (is_aborted c me.abort_receiver s).1)
  ]

  inherits :
      (me : StreamRequest R) (p : Poll (Result Stream E) × StreamRequest R) (stream : Stream)
      → Inherits me p
      → p.0 ≡ ready (Result.ok stream)
      → (stream.id ≡ me.id) × (stream.handle ≡ me.handle)
  inherits me (ready (Result.ok x), me') stream h e = let same : x ≡ stream = cc in rw (← same) h
  inherits me (ready (Result.err x), me') stream h e = cc
  inherits me (pending, me') stream h e = cc

  aborter_kept :
      (id : ℕ) (h : Handle) (a : Aborter) (t : Store c.World)
      → h.aborter ≡ some a
      → aborter c id h t ≡ ((a, h), t)
  unfolding aborter
  aborter_kept id h a t e = simp (aborter, e)

  aborter_of-kept :
      (stream : Stream) (a : Aborter) (t : Store c.World)
      → stream.handle.aborter ≡ some a
      → Items.aborter_of c stream t ≡ ((a, stream), t)
  unfolding Items.aborter_of
  aborter_of-kept stream a t e = rw (aborter_kept stream.id stream.handle a t e) refl

  made-handle :
      (me me' : StreamRequest R) (a : Aborter) (s s' : Store c.World)
      → me.handle ≡ no_handle
      → aborter_of c me s ≡ ((a, me'), s')
      → me'.handle ≡ record { aborter = some a; abort_receiver = some (c.oneshot s.world).0 }
  unfolding aborter_of
  made-handle me me' a s s' fresh made =
      let made' = rw (aborter_fresh c me.id me.handle s fresh) at made in
      let same_a : record { id = me.id; cell = length s.cells } ≡ a = ap (λ p. p.0.0) made' in
      let same_h = ap (λ p. p.0.1.handle) made' in rw (← same_h, ← same_a) refl

  ended :
      (laws : ChannelLaws c) (a : Aborter) (stream : Stream) (ch items : ℕ) (t : Store c.World)
      → stream.handle ≡ record { aborter = some a; abort_receiver = some ch }
      → flat (get_elem? t.cells a.cell) ≡ some ch
      → laws.IsOpen ch t.world
      → let t' = (abort c a t).1 in
        (is_aborted c stream.abort_receiver
          (record t' { world = (c.poll_item items t'.world).1 })).0
        ≡ true
  ended laws a stream ch items t h f o =
      let message : Request R = record { id = a.id; payload = Payload.abort } in
      let o' = laws.send_request-IsOpen ch message ResultSender.abort t.world o in
      let sent : laws.IsSent ch (abort c a t).1.world =
        rw (abort_full c a ch t f) (laws.send_abort-IsSent ch _ o') in
      let still = laws.poll-sent ch _ (laws.poll_item-IsSent ch items _ sent) in
      rw (ap (λ x. x.abort_receiver) h, still)

  -- The first aborter of a fresh stream request, the stream that the request becomes in some later
  -- poll, and any store in which that aborter was not used: the aborter of the stream is a clone of
  -- it, and after an abort an item that is there is still given, and without one the stream ends.
  pub stream-abort-ends :
      (laws : ChannelLaws c) (me me' : StreamRequest R) (a : Aborter) (s s' u t : Store c.World)
      (stream : Stream) (ch items : ℕ)
      → me.handle ≡ no_handle
      → aborter_of c me s ≡ ((a, me'), s')
      → (poll c me' u).0.0 ≡ ready (Result.ok stream)
      → stream.receiver ≡ some items
      → ch ≡ (c.oneshot s.world).0
      → flat (get_elem? t.cells a.cell) ≡ some ch
      → laws.IsOpen ch t.world
      → let t' = (abort c a t).1 in
        let got = (c.poll_item items t'.world).0 in
        let (given, stream') = (Items.poll_next c stream t').0 in
        (Items.aborter_of c stream t ≡ ((a, stream), t))
        × ((x : T) → got ≡ ready (some x) → (given ≡ ready (some x)) × (stream' ≡ stream))
        × (got ≡ pending → (given ≡ ready none) × (Items.is_terminated stream' ≡ true))
  unfolding aborter_of
  stream-abort-ends laws me me' a s s' u t stream ch items fresh made ok items_eq e f o =
      let stays = inherits me' (poll c me' u).0 stream (poll-Inherits me' u) ok in
      let handle = stays.1 ∙ made-handle me me' a s s' fresh made in
      let t' = (abort c a t).1 in
      let outcome = poll_next-outcome c stream items t' items_eq in
      (
        aborter_of-kept stream a t (ap (λ h. h.aborter) handle),
        outcome.0,
        λ p. outcome.2 p (ended laws a stream ch items t (rw e handle) f o),
      )
