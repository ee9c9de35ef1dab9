-- ===== src/Consumer/Leak.antt =====
-- The end of a stream that was never opened, as when the transport failed to send `Open`.
use zzrpc.Prelude.{ℕ, ◌+◌, ◌≡◌, refl, some, false, [], ◌∷◌, arith, total-set, get_elem?, weight}
use zzrpc.Prelude.Table.{Table, lookup, remove, weigh-remove}
use zzrpc.Message.{Response, StreamResponse}
use zzrpc.Consumer.State.{
  drop_sender, drop_values, Entry, streams, State, put_change, respond_stream,
}
use zzrpc.Consumer.Handle.{respond, respond_slot, idle}
use zzrpc.Consumer.Pending.{outstanding, unanswered}

respond_slot-unopened :
    (R T E : Type 0) (p id k sender items : ℕ) (t : Table Entry)
    → lookup id t ≡ some (record { result = some sender; items = items })
    → respond_slot {R = R} {T = T} {E = E} p
        (streams t)
        id
        (Response.stream k StreamResponse.closed)
      ≡ record {
        pending = p;
        slot = streams (remove id t);
        effects = drop_sender sender ∷ drop_values items ∷ [];
      }
unfolding respond_slot
respond_slot-unopened R T E p id k sender items t f = rw (f, respond_stream)

-- If `pending` was right and a stream that was not opened is closed, its request is dropped without
-- an answer and is no longer outstanding, but `pending` stays: it is then one too large, and the
-- consumer is not idle, even with nothing outstanding.
pub respond-leaks :
    (R T E : Type 0) (s : State) (id k sender items : ℕ) (t : Table Entry)
    → get_elem? s.slots k ≡ some (streams t)
    → lookup id t ≡ some (record { result = some sender; items = items })
    → s.pending ≡ outstanding s
    → let (s', effects) =
        respond {R = R} {T = T} {E = E} s id (Response.stream k StreamResponse.closed) in
      (effects ≡ drop_sender sender ∷ drop_values items ∷ [])
      × (outstanding s' + 1 ≡ outstanding s)
      × (s'.pending ≡ outstanding s' + 1)
      × (idle s' ≡ false)
unfolding respond put_change idle
respond-leaks R T E s id k sender items t e f counted =
    let left = total-set unanswered s.slots k (streams t) (streams (remove id t)) e in
    let gone = weigh-remove (λ x. weight (λ _. 1) x.result + 0) id t in
    rw (e, respond, respond_slot-unopened R T E s.pending id k sender items t f)
      (
        refl,
        ground (arith, left, gone, f),
        ground (arith, left, gone, f),
        ground (arith, left, gone, f),
      )
