-- ===== src/Consumer/Dropped.antt =====
-- zzrpc-derive/src/lib.rs, `consumer`: the handle `Consumer` and its `Drop`, and what the requests in
-- flight learn when it is dropped.
use zzrpc.Prelude.{
  ℕ, ◌≡◌, refl, inl, inr, none, Option, some, Option-cases, List, [], ◌∷◌, ◌++◌, arith, total,
}
use zzrpc.Prelude.Table.{Table}
use zzrpc.Consumer.State.{
  Effect, reset_timeout, send_message, send_result, send_open, send_item, drop_sender, drop_values,
  Entry, Slot, values, streams, State, drop_entry,
}
use zzrpc.Consumer.Handle.{drop_values_table, drop_streams_table, drop_slots}
use zzrpc.Consumer.Take.{break_}
use zzrpc.Consumer.Loop.{Event, consumer_dropped, Settings, run, step}
use zzrpc.Consumer.Mass.{mass, spent}
use zzrpc.Consumer.Conservation.{run-mass}

-- The counter of a crate, the senders of the methods, and the sender of the drop channel.
pub record Consumer (Counter Senders : Type 0) : Type 0 where
  pub id_counter : Counter
  pub senders : Senders
  pub drop_sender : Option ℕ

abbrev sent : Option ℕ → List ℕ
sent none = []
sent (some sender) = sender ∷ []

-- `Drop for Consumer`: the consumer afterwards, and the channels on which `()` was sent.
unfoldable pub drop :
    {Counter Senders : Type 0} → Consumer Counter Senders → Consumer Counter Senders × List ℕ
drop me = (record me { drop_sender = none }, sent me.drop_sender)

-- No effect but the drop of a sender.
abbrev pub Drops : {R T E : Type 0} → List (Effect R T E) → Type 0
Drops [] = Unit {0}
Drops (drop_sender sender ∷ effects) = Drops effects
Drops (drop_values sender ∷ effects) = Drops effects
Drops (_ ∷ effects) = ⊥

module _ (R T E : Type 0) where
  Drops-append : (xs ys : List (Effect R T E)) → Drops xs → Drops ys → Drops (xs ++ ys)
  Drops-append [] ys f g = g
  Drops-append (drop_sender s ∷ xs) ys f g = Drops-append xs ys f g
  Drops-append (drop_values s ∷ xs) ys f g = Drops-append xs ys f g
  Drops-append (reset_timeout ∷ xs) ys f g = absurd f
  Drops-append (send_message m ∷ xs) ys f g = absurd f
  Drops-append (send_result s r ∷ xs) ys f g = absurd f
  Drops-append (send_open s r ∷ xs) ys f g = absurd f
  Drops-append (send_item s x ∷ xs) ys f g = absurd f

  drop_entry-Drops : (entry : Entry) → Drops (drop_entry {R = R} {T = T} {E = E} entry)
  unfolding drop_entry
  drop_entry-Drops entry = elim (Option-cases entry.result) [
    | inl e ↦ rw e tt
    | inr (x, e) ↦ rw e tt
  ]

  drop_values-Drops : (t : Table ℕ) → Drops (drop_values_table {R = R} {T = T} {E = E} t)
  unfolding drop_values_table
  drop_values-Drops [] = tt
  drop_values-Drops ((id, s) ∷ t) = drop_values-Drops t

  drop_streams-Drops : (t : Table Entry) → Drops (drop_streams_table {R = R} {T = T} {E = E} t)
  unfolding drop_streams_table
  drop_streams-Drops [] = tt
  drop_streams-Drops ((id, entry) ∷ t) =
      Drops-append (drop_entry entry) (drop_streams_table t) (drop_entry-Drops entry)
        (drop_streams-Drops t)

  drop_slots-Drops : (slots : List Slot) → Drops (drop_slots {R = R} {T = T} {E = E} slots)
  unfolding drop_slots
  drop_slots-Drops [] = tt
  drop_slots-Drops (values t ∷ slots) =
      Drops-append (drop_values_table t) (drop_slots slots) (drop_values-Drops t)
        (drop_slots-Drops slots)
  drop_slots-Drops (streams t ∷ slots) =
      Drops-append (drop_streams_table t) (drop_slots slots) (drop_streams-Drops t)
        (drop_slots-Drops slots)

-- When the drop of the consumer arrives, the loop is left before any later event. No request in
-- flight is answered, and none is left waiting: the senders that the state holds are all dropped,
-- each as often as it is held, and there is no other effect.
pub dropped-Drops :
    {R T E S : Type 0} (c : Settings E S) (cb : S) (s : State) (events : List (Event R T E))
    (u v : ℕ → ℕ)
    → let o = run c cb s (consumer_dropped ∷ events) in
      (o.flow ≡ break_)
      × (o.left ≡ none)
      × (o.rest ≡ events)
      × Drops o.effects
      × (total (spent u v) o.effects ≡ mass u v s)
unfolding run step
dropped-Drops {R} {T} {E} c cb s events u v = (
  refl,
  refl,
  refl,
  drop_slots-Drops R T E s.slots,
  omega (arith, run-mass u v c cb s (consumer_dropped ∷ events)),
)
