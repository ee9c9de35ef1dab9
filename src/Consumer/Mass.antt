-- ===== src/Consumer/Mass.antt =====
-- Which senders the consumer holds, and which it uses up: a weight `u` of the oneshot senders and a
-- weight `v` of the senders of items, summed over a state, over effects and over an event.
use zzrpc.Prelude.{
  ℕ, ◌+◌, ◌≡◌, refl, inl, inr, Option-cases, Option, none, some, List, [], ◌∷◌, map, arith, weight,
  total, total-append,
}
use zzrpc.Prelude.Table.{Table, lookup, weigh, weigh-insert, weigh-remove}
use zzrpc.Rpc.{ShutdownType, TransportError}
use zzrpc.Message.{ResultSender, Response, StreamResponse}
use zzrpc.Consumer.State.{
  Effect, reset_timeout, send_message, send_result, send_open, send_item, drop_sender, drop_values,
  Entry, Slot, values, streams, State, Change, respond_value, respond_stream, drop_entry,
}
use zzrpc.Consumer.Handle.{
  respond_slot, drained, drain_values, drain_entry, drain_streams, drain_slots, drop_values_table,
  drop_streams_table, drop_slots,
}
use zzrpc.Consumer.Take.{request_slot}

module _ (u v : ℕ → ℕ) where
  abbrev pub mass_entry : Entry → ℕ
  mass_entry entry = weight u entry.result + v entry.items

  abbrev pub mass_slot : Slot → ℕ
  mass_slot (values requests) = weigh u requests
  mass_slot (streams requests) = weigh mass_entry requests

  abbrev pub mass : State → ℕ
  mass s = total mass_slot s.slots

  -- The weight of a request that arrives.
  abbrev pub brought : ResultSender → ℕ
  brought (ResultSender.value sender) = u sender
  brought (ResultSender.stream sender items) = u sender + v items
  brought ResultSender.abort = 0

  module _ {R T E : Type 0} where
    -- The weight of the senders that an effect uses up.
    abbrev pub spent : Effect R T E → ℕ
    spent reset_timeout = 0
    spent (send_message m) = 0
    spent (send_result sender r) = u sender
    spent (send_open sender r) = u sender
    spent (send_item sender x) = 0
    spent (drop_sender sender) = u sender
    spent (drop_values sender) = v sender

module _ (u v : ℕ → ℕ) (R T E : Type 0) where
  -- What a slot gains is what it had and what came, less what was used up.
  abbrev pub Balanced : Change R T E → Slot → ℕ → Type 0
  Balanced c slot came =
      mass_slot u v c.slot + total (spent u v) c.effects ≡ mass_slot u v slot + came

  respond_value-Balanced :
      (p : ℕ) (t : Table ℕ) (id : ℕ) (x : T) → Balanced (respond_value p t id x) (values t) 0
  unfolding respond_value
  respond_value-Balanced p t id x = ground (arith, weigh-remove u id t)

  respond_stream-Balanced :
      (p : ℕ) (t : Table Entry) (id : ℕ) (x : StreamResponse T)
      → Balanced (respond_stream p t id x) (streams t) 0
  unfolding respond_stream
  respond_stream-Balanced p t id StreamResponse.open_ = elim (Option-cases (lookup id t)) [
    | inl e ↦ ground arith
    | inr (entry, e) ↦
        ground (arith, weigh-insert (mass_entry u v) id (record entry { result = none }) t)
  ]
  respond_stream-Balanced p t id (StreamResponse.item x) = ground arith
  respond_stream-Balanced p t id StreamResponse.closed =
      ground (arith, weigh-remove (mass_entry u v) id t)

  pub respond_slot-Balanced :
      (p : ℕ) (slot : Slot) (id : ℕ) (r : Response T) → Balanced (respond_slot p slot id r) slot 0
  unfolding respond_slot
  respond_slot-Balanced p (values t) id (Response.value k x) = respond_value-Balanced p t id x
  respond_slot-Balanced p (streams t) id (Response.stream k x) = respond_stream-Balanced p t id x
  respond_slot-Balanced p (values t) id (Response.stream k x) = omega arith
  respond_slot-Balanced p (streams t) id (Response.value k x) = omega arith

  pub request_slot-Balanced :
      (p : ℕ) (slot : Slot) (id : ℕ) (r : ResultSender) (failure : Option (TransportError E))
      → Balanced (request_slot p slot id r failure).0 slot (brought u v r)
  unfolding request_slot
  request_slot-Balanced p (values t) id (ResultSender.value s) none =
      ground (arith, weigh-insert u id s t)
  request_slot-Balanced p (values t) id (ResultSender.value s) (some e) = omega arith
  request_slot-Balanced p (values t) id ResultSender.abort f = ground (arith, weigh-remove u id t)
  request_slot-Balanced p (values t) id (ResultSender.stream s i) f = omega arith
  request_slot-Balanced p (streams t) id (ResultSender.value s) f = omega arith
  request_slot-Balanced p (streams t) id ResultSender.abort f =
      ground (arith, weigh-remove (mass_entry u v) id t)
  request_slot-Balanced p (streams t) id (ResultSender.stream s i) none =
      ground (arith, weigh-insert (mass_entry u v) id (record { result = some s; items = i }) t)
  request_slot-Balanced p (streams t) id (ResultSender.stream s i) (some e) = omega arith

  abbrev spent_all : List (Effect R T E) → ℕ
  spent_all = total (spent u v)

  -- What `shutdown` does with the senders of the tables, and what the drop of the state does.
  total-drain_values :
      (cause : ShutdownType) (t : Table ℕ) → spent_all (drain_values cause t) ≡ weigh u t
  unfolding drain_values weigh
  total-drain_values cause [] = refl
  total-drain_values cause ((id, s) ∷ t) = omega (arith, total-drain_values cause t)

  total-drain_entry :
      (cause : ShutdownType) (e : Entry) → spent_all (drain_entry cause e) ≡ mass_entry u v e
  unfolding drain_entry
  total-drain_entry cause e = ground arith

  total-drain_streams :
      (cause : ShutdownType) (t : Table Entry)
      → spent_all (drain_streams cause t) ≡ weigh (mass_entry u v) t
  unfolding drain_streams weigh
  total-drain_streams cause [] = refl
  total-drain_streams cause ((id, e) ∷ t) = omega (
    arith,
    total-append (spent u v) (drain_entry cause e) (drain_streams cause t),
    total-drain_entry cause e,
    total-drain_streams cause t,
  )

  pub total-drain_slots :
      (cause : ShutdownType) (slots : List Slot)
      → spent_all (drain_slots cause slots) ≡ total (mass_slot u v) slots
  unfolding drain_slots
  total-drain_slots cause [] = refl
  total-drain_slots cause (values t ∷ slots) = omega (
    arith,
    total-append (spent u v) (drain_values cause t) (drain_slots cause slots),
    total-drain_values cause t,
    total-drain_slots cause slots,
  )
  total-drain_slots cause (streams t ∷ slots) = omega (
    arith,
    total-append (spent u v) (drain_streams cause t) (drain_slots cause slots),
    total-drain_streams cause t,
    total-drain_slots cause slots,
  )

  total-drop_values_table : (t : Table ℕ) → spent_all (drop_values_table t) ≡ weigh u t
  unfolding drop_values_table weigh
  total-drop_values_table [] = refl
  total-drop_values_table ((id, s) ∷ t) = omega (arith, total-drop_values_table t)

  total-drop_entry : (e : Entry) → spent_all (drop_entry e) ≡ mass_entry u v e
  unfolding drop_entry
  total-drop_entry e = ground arith

  total-drop_streams_table :
      (t : Table Entry) → spent_all (drop_streams_table t) ≡ weigh (mass_entry u v) t
  unfolding drop_streams_table weigh
  total-drop_streams_table [] = refl
  total-drop_streams_table ((id, e) ∷ t) = omega (
    arith,
    total-append (spent u v) (drop_entry e) (drop_streams_table t),
    total-drop_entry e,
    total-drop_streams_table t,
  )

  pub total-drop_slots :
      (slots : List Slot) → spent_all (drop_slots slots) ≡ total (mass_slot u v) slots
  unfolding drop_slots
  total-drop_slots [] = refl
  total-drop_slots (values t ∷ slots) = omega (
    arith,
    total-append (spent u v) (drop_values_table t) (drop_slots slots),
    total-drop_values_table t,
    total-drop_slots slots,
  )
  total-drop_slots (streams t ∷ slots) = omega (
    arith,
    total-append (spent u v) (drop_streams_table t) (drop_slots slots),
    total-drop_streams_table t,
    total-drop_slots slots,
  )

  pub mass-drained : (slots : List Slot) → total (mass_slot u v) (map drained slots) ≡ 0
  unfolding weigh
  mass-drained [] = refl
  mass-drained (values t ∷ slots) = omega (arith, mass-drained slots)
  mass-drained (streams t ∷ slots) = omega (arith, mass-drained slots)
