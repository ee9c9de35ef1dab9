-- ===== src/Consumer/Take.antt =====
-- zzrpc-derive/src/lib.rs, `impl_consume`: `match result_sender` for a request that was taken from
-- the channel of its method and sent, or failed to be sent, through the transport.
use zzrpc.Prelude.{ℕ, Option, none, some, List, [], ◌∷◌, usize_inc, usize_dec}
use zzrpc.Prelude.Table.{Table, lookup, insert, remove}
use zzrpc.Rpc.{TransportError, from_transport_error}
use zzrpc.Message.{Result, ResultSender}
use zzrpc.Consumer.State.{
  Effect, send_result, send_open, drop_sender, drop_values, Entry, Slot, values, streams, Change,
  drop_entry,
}

-- How a round of the loop ends: it goes on, is left by `break`, or panics at `unreachable!`.
pub data Flow : Type 0 where
  continue_ break_ panic : Flow

abbrev pub dec_if_some : Option ℕ → ℕ → ℕ
dec_if_some none pending = pending
dec_if_some (some sender) pending = usize_dec pending

module _ {R T E : Type 0} where
  -- The value that `HashMap::insert` returns is dropped.
  unfoldable pub replaced_sender : Option ℕ → List (Effect R T E)
  replaced_sender none = []
  replaced_sender (some sender) = drop_sender sender ∷ []

  unfoldable pub replaced_entry : Option Entry → List (Effect R T E)
  unfolding drop_entry
  replaced_entry none = []
  replaced_entry (some entry) = drop_entry entry

  unfoldable pub add_value : ℕ → Table ℕ → ℕ → ℕ → Option (TransportError E) → Change R T E
  unfolding replaced_sender
  add_value pending requests id sender none = record {
    pending = usize_inc pending;
    slot = values (insert id sender requests);
    effects = replaced_sender (lookup id requests);
  }
  add_value pending requests id sender (some e) = record {
    pending = pending;
    slot = values requests;
    effects = send_result sender (Result.err (from_transport_error e)) ∷ [];
  }

  unfoldable pub add_stream : ℕ → Table Entry → ℕ → ℕ → ℕ → Option (TransportError E) → Change R T E
  unfolding replaced_entry
  add_stream pending requests id sender items none = record {
    pending = usize_inc pending;
    slot = streams (insert id (record { result = some sender; items = items }) requests);
    effects = replaced_entry (lookup id requests);
  }
  add_stream pending requests id sender items (some e) = record {
    pending = pending;
    slot = streams requests;
    effects = send_open sender (Result.err (from_transport_error e)) ∷ drop_values items ∷ [];
  }

  unfoldable pub abort_value : ℕ → Table ℕ → ℕ → Change R T E
  abort_value pending requests id = elim (lookup id requests) [
    | none ↦ record { pending = pending; slot = values requests; effects = [] }
    | some sender ↦ record {
      pending = usize_dec pending;
      slot = values (remove id requests);
      effects = drop_sender sender ∷ [];
    }
  ]

  unfoldable pub abort_stream : ℕ → Table Entry → ℕ → Change R T E
  unfolding drop_entry
  abort_stream pending requests id = elim (lookup id requests) [
    | none ↦ record { pending = pending; slot = streams requests; effects = [] }
    | some entry ↦ record {
      pending = dec_if_some entry.result pending;
      slot = streams (remove id requests);
      effects = drop_entry entry;
    }
  ]

  abbrev pub panicked : ℕ → Slot → List (Effect R T E) → Change R T E × Flow
  panicked pending slot effects =
      (record { pending = pending; slot = slot; effects = effects }, panic)

  -- `match result_sender`; a sender of the wrong kind panics, and is dropped.
  unfoldable pub request_slot :
      ℕ → Slot → ℕ → ResultSender → Option (TransportError E) → Change R T E × Flow
  unfolding add_value add_stream abort_value abort_stream
  request_slot pending (values requests) id (ResultSender.value sender) failure =
      (add_value pending requests id sender failure, continue_)
  request_slot pending (values requests) id ResultSender.abort failure =
      (abort_value pending requests id, continue_)
  request_slot pending (values requests) id (ResultSender.stream sender items) failure =
      panicked pending (values requests) (drop_sender sender ∷ drop_values items ∷ [])
  request_slot pending (streams requests) id (ResultSender.stream sender items) failure =
      (add_stream pending requests id sender items failure, continue_)
  request_slot pending (streams requests) id ResultSender.abort failure =
      (abort_stream pending requests id, continue_)
  request_slot pending (streams requests) id (ResultSender.value sender) failure =
      panicked pending (streams requests) (drop_sender sender ∷ [])
