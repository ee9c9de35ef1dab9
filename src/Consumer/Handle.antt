-- ===== src/Consumer/Handle.antt =====
-- zzrpc-derive/src/lib.rs, `impl_consumer_state`: `handle_message`, `idle` and `shutdown` of the
-- generated state, and the drop of the state when its task ends.
use zzrpc.Prelude.{ℕ, Bool, Option, none, some, List, [], ◌∷◌, ◌++◌, map, ◌==◌, get_elem?}
use zzrpc.Prelude.Table.{Table}
use zzrpc.Rpc.{ShutdownType, from_shutdown}
use zzrpc.Message.{Result, Response, Message}
use zzrpc.Consumer.State.{
  Effect, send_result, send_open, drop_sender, drop_values, Entry, Slot, values, streams, State,
  Change, respond_value, respond_stream, drop_entry, put_change,
}

module _ {R T E : Type 0} where
  -- A response for a slot. In Rust a response names a method of the api and has its type, so the
  -- last two clauses, which change nothing, are never taken.
  unfoldable pub respond_slot : ℕ → Slot → ℕ → Response T → Change R T E
  unfolding respond_value respond_stream
  respond_slot pending (values requests) id (Response.value k result) =
      respond_value pending requests id result
  respond_slot pending (streams requests) id (Response.stream k result) =
      respond_stream pending requests id result
  respond_slot pending (values requests) id (Response.stream k result) = record {
    pending = pending;
    slot = values requests;
    effects = [];
  }
  respond_slot pending (streams requests) id (Response.value k result) = record {
    pending = pending;
    slot = streams requests;
    effects = [];
  }

abbrev pub method : {T : Type 0} → Response T → ℕ
method (Response.value k result) = k
method (Response.stream k result) = k

module _ {R T E : Type 0} where
  -- `match response`
  unfoldable pub respond : State → ℕ → Response T → State × List (Effect R T E)
  unfolding put_change
  respond s id response = elim (get_elem? s.slots (method response)) [
    | none ↦ (s, [])
    | some slot ↦ put_change s (method response) (respond_slot s.pending slot id response)
  ]

  -- The last component is the shutdown type to stop with.
  unfoldable pub handle_message :
      State → Message T → State × List (Effect R T E) × Option ShutdownType
  handle_message s (Message.response id response) =
      let (s', effects) = respond s id response in (s', effects, none)
  handle_message s Message.aborted = (s, [], some ShutdownType.aborted)
  handle_message s Message.shutdown = (s, [], some ShutdownType.shutdown)

unfoldable pub idle : State → Bool
idle s = s.pending == 0

abbrev pub drained : Slot → Slot
drained (values requests) = values []
drained (streams requests) = streams []

module _ {R T E : Type 0} where
  unfoldable pub drain_values : ShutdownType → Table ℕ → List (Effect R T E)
  drain_values cause [] = []
  drain_values cause ((id, sender) ∷ requests) =
      send_result sender (Result.err (from_shutdown cause)) ∷ drain_values cause requests

  -- The sender of the items is dropped at the end of the round.
  unfoldable pub drain_entry : ShutdownType → Entry → List (Effect R T E)
  drain_entry cause entry = elim entry.result [
    | none ↦ drop_values entry.items ∷ []
    | some sender ↦
        send_open sender (Result.err (from_shutdown cause)) ∷ drop_values entry.items ∷ []
  ]

  unfoldable pub drain_streams : ShutdownType → Table Entry → List (Effect R T E)
  unfolding drain_entry
  drain_streams cause [] = []
  drain_streams cause ((id, entry) ∷ requests) =
      drain_entry cause entry ++ drain_streams cause requests

  unfoldable pub drain_slots : ShutdownType → List Slot → List (Effect R T E)
  unfolding drain_values drain_streams
  drain_slots cause [] = []
  drain_slots cause (values requests ∷ slots) =
      drain_values cause requests ++ drain_slots cause slots
  drain_slots cause (streams requests ∷ slots) =
      drain_streams cause requests ++ drain_slots cause slots

  -- `shutdown`: the tables are drained, `pending` stays.
  unfoldable pub shutdown : State → ShutdownType → State × List (Effect R T E)
  unfolding drain_slots
  shutdown s cause = (record s { slots = map drained s.slots }, drain_slots cause s.slots)

  -- What the drop of the state does to the senders that are left.
  unfoldable pub drop_values_table : Table ℕ → List (Effect R T E)
  drop_values_table [] = []
  drop_values_table ((id, sender) ∷ requests) = drop_sender sender ∷ drop_values_table requests

  unfoldable pub drop_streams_table : Table Entry → List (Effect R T E)
  unfolding drop_entry
  drop_streams_table [] = []
  drop_streams_table ((id, entry) ∷ requests) = drop_entry entry ++ drop_streams_table requests

  unfoldable pub drop_slots : List Slot → List (Effect R T E)
  unfolding drop_values_table drop_streams_table
  drop_slots [] = []
  drop_slots (values requests ∷ slots) = drop_values_table requests ++ drop_slots slots
  drop_slots (streams requests ∷ slots) = drop_streams_table requests ++ drop_slots slots
