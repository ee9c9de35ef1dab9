-- ===== src/Consumer/State.antt =====
-- zzrpc-derive/src/lib.rs, `consumer_state` and `impl_consumer_state`: the state that the macro
-- generates for an api, with one slot for each method, in the order of the trait. What the code
-- calls on channels and on the transport is recorded as effects, in order. A sender that goes out
-- of scope unused is an effect too, because its receiver learns of it.
use zzrpc.Prelude.{ℕ, Bool, true, false, Option, none, some, List, [], ◌∷◌, map, set, usize_dec}
use zzrpc.Prelude.Table.{Table, lookup, insert, remove}
use zzrpc.Message.{Request, Result, StreamResponse}

pub data Effect (R T E : Type 0) : Type 0 where
  reset_timeout : Effect R T E
  send_message : Request R → Effect R T E  -- `sender.send(message).await` on the transport
  send_result : (sender : ℕ) → Result T E → Effect R T E  -- answers a value request
  send_open : (sender : ℕ) → Result (Unit {0}) E → Effect R T E  -- answers a stream request
  send_item : (sender : ℕ) → T → Effect R T E  -- `unbounded_send` of a stream item
  drop_sender : (sender : ℕ) → Effect R T E  -- a oneshot sender is dropped unused
  drop_values : (sender : ℕ) → Effect R T E  -- the sender of the items of a stream is dropped

-- `(Option<oneshot::Sender<Result<(), Error>>>, UnboundedSender<T>)`
pub record Entry : Type 0 where
  pub result : Option ℕ
  pub items : ℕ

-- `…__requests` of one method: of a value method, or of a stream method.
pub data Slot : Type 0 where
  values : Table ℕ → Slot
  streams : Table Entry → Slot

-- `ConsumerState`, but for the ends of the request channels, which the loop reads.
pub record State : Type 0 where
  pub pending : ℕ
  pub slots : List Slot

abbrev pub empty_slot : Bool → Slot
empty_slot false = values []
empty_slot true = streams []

-- `ConsumerState::new`, from `is_stream` of each method.
unfoldable pub new : List Bool → State
new kinds = record { pending = 0; slots = map empty_slot kinds }

-- What one slot does to the state.
pub record Change (R T E : Type 0) : Type 0 where
  pub pending : ℕ
  pub slot : Slot
  pub effects : List (Effect R T E)

module _ {R T E : Type 0} where
  unfoldable pub respond_value : ℕ → Table ℕ → ℕ → T → Change R T E
  respond_value pending requests id result = elim (lookup id requests) [
    | none ↦ record { pending = pending; slot = values requests; effects = [] }
    | some sender ↦ record {
      pending = usize_dec pending;
      slot = values (remove id requests);
      effects = send_result sender (Result.ok result) ∷ [];
    }
  ]

  -- `Open` for a stream that is there.
  unfoldable pub open_entry : ℕ → Table Entry → ℕ → Entry → Change R T E
  open_entry pending requests id entry = elim entry.result [
    | none ↦ record { pending = pending; slot = streams requests; effects = [] }
    | some sender ↦ record {
      pending = usize_dec pending;
      slot = streams (insert id (record entry { result = none }) requests);
      effects = send_open sender (Result.ok tt) ∷ [];
    }
  ]

  -- A dropped entry drops its senders.
  unfoldable pub drop_entry : Entry → List (Effect R T E)
  drop_entry entry = elim entry.result [
    | none ↦ drop_values entry.items ∷ []
    | some sender ↦ drop_sender sender ∷ drop_values entry.items ∷ []
  ]

  unfoldable pub respond_stream : ℕ → Table Entry → ℕ → StreamResponse T → Change R T E
  unfolding open_entry drop_entry
  respond_stream pending requests id StreamResponse.open_ = elim (lookup id requests) [
    | none ↦ record { pending = pending; slot = streams requests; effects = [] }
    | some entry ↦ open_entry pending requests id entry
  ]
  respond_stream pending requests id (StreamResponse.item x) = elim (lookup id requests) [
    | none ↦ record { pending = pending; slot = streams requests; effects = [] }
    | some entry ↦ record {
      pending = pending;
      slot = streams requests;
      effects = send_item entry.items x ∷ [];
    }
  ]
  respond_stream pending requests id StreamResponse.closed = elim (lookup id requests) [
    | none ↦ record { pending = pending; slot = streams requests; effects = [] }
    | some entry ↦ record {
      pending = pending;
      slot = streams (remove id requests);
      effects = drop_entry entry;
    }
  ]

-- Put the change of the slot at `k` back into the state.
unfoldable pub put_change :
    {R T E : Type 0} → State → ℕ → Change R T E → State × List (Effect R T E)
put_change s k c = (record { pending = c.pending; slots = set s.slots k c.slot }, c.effects)
