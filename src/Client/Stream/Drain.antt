-- ===== src/Client/Stream/Drain.antt =====
-- A caller that reads a stream to its end.
use zzrpc.Prelude.{ℕ, ◌<◌, ◌≡◌, refl, arith, ap, true, Option, none, some, List, [], ◌∷◌, length}
use zzrpc.Rpc.Timeout.{Poll, ready}
use zzrpc.Client.Channels.{Channels, Io, Store}
use zzrpc.Client.Stream.Items
use zzrpc.Client.Stream.Items.{Stream}

-- Documented for `mpsc::unbounded`: a receiver whose senders are all dropped gives what was sent, in
-- order, and then its end.
pub record ItemLaws {R T E : Type 0} (c : Channels R T E) : Type 1 where
  -- The senders are dropped, and these items were sent and not yet received.
  pub Holds : ℕ → List T → c.World → Type 0
  pub poll_item-some :
      (ch : ℕ) (x : T) (xs : List T) (w : c.World)
      → Holds ch (x ∷ xs) w
      → ((c.poll_item ch w).0 ≡ ready (some x)) × Holds ch xs (c.poll_item ch w).1
  pub poll_item-none : (ch : ℕ) (w : c.World) → Holds ch [] w → (c.poll_item ch w).0 ≡ ready none

module _ {R T E : Type 0} (c : Channels R T E) where
  abbrev Read : Type 0
  Read = (List T × Stream) × Store c.World

  -- An item is kept and the rest is read; otherwise the reading is over.
  abbrev keep : Poll (Option T) → Stream → Store c.World → Read → Read
  keep (ready (some x)) me s ((xs, me'), s') = ((x ∷ xs, me'), s')
  keep given me s rest = (([], me), s)

  -- What a caller gets that polls while it is given items, at most so many times.
  unfoldable pub drain : ℕ → Stream → Io c.World (List T × Stream)
  drain ℕ.zero me s = (([], me), s)
  drain (ℕ.suc n) me s =
      let ((given, me'), s') = Items.poll_next c me s in keep given me' s' (drain n me' s')

  module _ (laws : ItemLaws c) where
    poll-item :
        (me : Stream) (s : Store c.World) (ch : ℕ) (x : T) (xs : List T)
        → me.receiver ≡ some ch
        → laws.Holds ch (x ∷ xs) s.world
        → Items.poll_next c me s
          ≡ ((ready (some x), me), record s { world = (c.poll_item ch s.world).1 })
    unfolding Items.poll_next
    poll-item me s ch x xs e h = simp (e, (laws.poll_item-some ch x xs s.world h).0)

    poll-end :
        (me : Stream) (s : Store c.World) (ch : ℕ)
        → me.receiver ≡ some ch
        → laws.Holds ch [] s.world
        → (Items.poll_next c me s).0 ≡ (ready none, record me { receiver = none })
    unfolding Items.poll_next
    poll-end me s ch e h = simp (e, laws.poll_item-none ch s.world h)

    -- Reading a stream to its end terminates: if `n` items are left on its channel and the senders
    -- are gone, more than `n` polls give exactly these items, in order, and then the stream has
    -- ended; whether an abort has arrived or not.
    pub drain-terminates :
        (xs : List T) (n : ℕ) (me : Stream) (s : Store c.World) (ch : ℕ)
        → me.receiver ≡ some ch
        → laws.Holds ch xs s.world
        → length xs < n
        → ((drain n me s).0.0 ≡ xs) × (Items.is_terminated (drain n me s).0.1 ≡ true)
    unfolding drain Items.is_terminated
    drain-terminates xs ℕ.zero me s ch e h lt = absurd (omega arith)
    drain-terminates [] (ℕ.suc n) me s ch e h lt = rw (poll-end me s ch e h) (refl, refl)
    drain-terminates (x ∷ xs) (ℕ.suc n) me s ch e h lt =
        let left = (laws.poll_item-some ch x xs s.world h).1 in
        let (all, over) =
          drain-terminates xs n me (record s { world = (c.poll_item ch s.world).1 }) ch e left
            (omega arith) in
        rw (poll-item me s ch x xs e h) (ap (λ l. x ∷ l) all, over)
