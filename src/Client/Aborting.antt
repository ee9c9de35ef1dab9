-- ===== src/Client/Aborting.antt =====
-- An aborter and the future that it aborts, together.
use zzrpc.Prelude.{
  ℕ, ◌≡◌, refl, ap, ◌∙◌, true, Option, none, some, List, [], ◌∷◌, ◌++◌, get_elem?, set, length,
  set-set,
}
use zzrpc.Rpc.{Error}
use zzrpc.Rpc.Timeout.{ready}
use zzrpc.Message.{Request, Payload, Result, ResultSender}
use zzrpc.Client.Channels.{Channels, ChannelLaws, Store, is_aborted, drop_taken, flat}
use zzrpc.Client.Aborter.{Handle, Aborter, aborter, abort, send_both}
use zzrpc.Client.Value
use zzrpc.Client.Value.{ValueRequest}
use zzrpc.Client.Value.Laws.{poll-aborted}

get_elem?-end :
    (xs : List (Option ℕ)) (x : Option ℕ) → get_elem? (xs ++ x ∷ []) (length xs) ≡ some x
get_elem?-end [] x = refl
get_elem?-end (y ∷ xs) x = get_elem?-end xs x

-- `take` leaves `none` behind.
flat-set : (cells : List (Option ℕ)) (i : ℕ) → flat (get_elem? (set cells i none) i) ≡ none
flat-set [] i = refl
flat-set (x ∷ cells) ℕ.zero = refl
flat-set (x ∷ cells) (ℕ.suc i) = flat-set cells i

module _ {R T E : Type 0} (c : Channels R T E) where
  send_both-cells :
      (a : Aborter) (o : Option ℕ) (s : Store c.World) → (send_both c a o s).1.cells ≡ s.cells
  unfolding send_both
  send_both-cells a none s = refl
  send_both-cells a (some sender) s = refl

  abort-cells : (a : Aborter) (s : Store c.World) → (abort c a s).1.cells ≡ set s.cells a.cell none
  unfolding abort
  abort-cells a s = send_both-cells a _ _

  abort_empty :
      (b : Aborter) (t : Store c.World)
      → flat (get_elem? t.cells b.cell) ≡ none
      → set t.cells b.cell none ≡ t.cells
      → (abort c b t).1 ≡ t
  unfolding abort send_both
  abort_empty b t e f = rw (e, f)

  pub abort_full :
      (a : Aborter) (ch : ℕ) (s : Store c.World)
      → flat (get_elem? s.cells a.cell) ≡ some ch
      → (abort c a s).1.world
        ≡ c.send_abort ch
            (c.send_request
              (record { id = a.id; payload = Payload.abort })
              ResultSender.abort
              s.world).1
  unfolding abort send_both
  abort_full a ch s e = rw e

  -- An abort through any clone empties the cell that they share, so a second abort, through
  -- whichever clone, sends nothing and changes nothing.
  abort_twice :
      (a b : Aborter) (s : Store c.World)
      → a.cell ≡ b.cell
      → (abort c b (abort c a s).1).1 ≡ (abort c a s).1
  abort_twice a b s e =
      abort_empty b (abort c a s).1 (rw (abort-cells a s, e) (flat-set s.cells b.cell))
        (rw (abort-cells a s, e) (set-set s.cells b.cell none none))

  pub aborter_fresh :
      (id : ℕ) (h : Handle) (s : Store c.World)
      → h ≡ record { aborter = none; abort_receiver = none }
      → let ch = (c.oneshot s.world).0 in
        let a : Aborter = record { id = id; cell = length s.cells } in
        aborter c id h s ≡ (
          (a, record { aborter = some a; abort_receiver = some ch }),
          record { world = (c.oneshot s.world).1; cells = s.cells ++ some ch ∷ [] },
        )
  unfolding aborter
  aborter_fresh id h s e = rw e

  pub arrived-abort :
      (laws : ChannelLaws c) (a : Aborter) (ch : ℕ) (s : Store c.World)
      → flat (get_elem? s.cells a.cell) ≡ some ch
      → laws.IsOpen ch s.world
      → (is_aborted c (some ch) (abort c a s).1).0 ≡ true
  arrived-abort laws a ch s f o =
      let message : Request R = record { id = a.id; payload = Payload.abort } in
      let o' = laws.send_request-IsOpen ch message ResultSender.abort s.world o in
      rw (abort_full a ch s f, laws.poll-sent ch _ (laws.send_abort-IsSent ch _ o'))

  poll-abort :
      (laws : ChannelLaws c) (me : ValueRequest R) (a : Aborter) (ch : ℕ) (s : Store c.World)
      → me.abort_receiver ≡ some ch
      → flat (get_elem? s.cells a.cell) ≡ some ch
      → laws.IsOpen ch s.world
      → Value.poll c me (abort c a s).1 ≡ (
        (ready (Result.err Error.aborted), record me { request = none; receiver = none }),
        (drop_taken c me.receiver (is_aborted c (some ch) (abort c a s).1).1).1,
      )
  poll-abort laws me a ch s e f o =
      (poll-aborted c me (abort c a s).1 (rw e (arrived-abort laws a ch s f o))).0
      ∙ ap
          (λ h. (
            (ready (Result.err Error.aborted), record me { request = none; receiver = none }),
            (drop_taken c me.receiver (is_aborted c h (abort c a s).1).1).1,
          ))
          e

  -- The first aborter of a fresh request, used before the request is polled again: the abort
  -- message with the id of the request goes to the consumer, and the next poll answers `Aborted`.
  -- All that this poll does is to poll the abort receiver and to drop the receiver of the result.
  pub abort-poll :
      (laws : ChannelLaws c) (me : ValueRequest R) (s : Store c.World)
      → me.handle ≡ record { aborter = none; abort_receiver = none }
      → let ((a, h), s1) = aborter c me.id me.handle s in
        let s2 = (abort c a s1).1 in
        let me' : ValueRequest R = record me { handle = h } in
        (s2.world
          ≡ c.send_abort
              (c.oneshot s.world).0
              (c.send_request
                (record { id = me.id; payload = Payload.abort })
                ResultSender.abort
                (c.oneshot s.world).1).1)
        × (Value.poll c me' s2 ≡ (
          (ready (Result.err Error.aborted), record me' { request = none; receiver = none }),
          (drop_taken c me.receiver (is_aborted c (some (c.oneshot s.world).0) s2).1).1,
        ))
  abort-poll laws me s e = rw (aborter_fresh me.id me.handle s e) (
    abort_full a ch s1 (ap flat (get_elem?-end s.cells (some ch))),
    poll-abort laws (record me { handle = h }) a ch s1 refl
        (ap flat (get_elem?-end s.cells (some ch))) (laws.oneshot-IsOpen s.world),
  )
    where
      ch : ℕ
      ch = (c.oneshot s.world).0

      a : Aborter
      a = record { id = me.id; cell = length s.cells }

      h : Handle
      h = record { aborter = some a; abort_receiver = some ch }

      s1 : Store c.World
      s1 = record { world = (c.oneshot s.world).1; cells = s.cells ++ some ch ∷ [] }
