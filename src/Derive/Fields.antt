-- ===== src/Derive/Fields.antt =====
-- zzrpc-derive/src/lib.rs, `consumer` and what it calls: the structs that the macro generates for a
-- consumer, with the names and the types of their fields, and each use of a field in the code that
-- it generates beside them. What the code does with a field is modelled with the consumer.
pub mod Code
pub mod Checked
pub mod Literals
pub mod Typing
pub mod Unique
pub mod Names
pub mod Resolve
use Prim.Native.String.{String, ◌++◌ as ◌<>◌}
use zzrpc.Prelude.{Bool, Option, none, some, List, [], ◌∷◌, ◌++◌, map, if◌then◌else◌}
use zzrpc.Derive.{
  ◌>>=◌, Syntax, Method, TraitItem, Call, methods, each, extract_return_type, is_stream, impl_api,
}

-- The types of fields and of local variables. `Tx` and `Rx` are the ends of a channel of
-- `(Message<Request>, ResultSender<T, Error>)`.
pub data FieldType (Ty : Type 0) : Type 0 where
  usize : FieldType Ty
  sender : Ty → FieldType Ty  -- `UnboundedSender<(.., ResultSender<T, Error>)>`
  receiver : Ty → FieldType Ty  -- `UnboundedReceiver<(.., ResultSender<T, Error>)>`
  arc : FieldType Ty → FieldType Ty
  value_table : Ty → FieldType Ty  -- `HashMap<usize, Sender<Result<T, Error>>>`
  stream_table : Ty → FieldType Ty  -- `HashMap<usize, (Option<..>, UnboundedSender<T>)>`

-- The fields of a struct, or the local variables in scope.
abbrev pub Fields : Type 0 → Type 0
Fields Ty = List (String × FieldType Ty)

-- The value that a struct literal gives to a field.
pub data Init : Type 0 where
  zero : Init
  new_map : Init  -- `HashMap::new()`
  local : String → Init
  arc_new : String → Init  -- `Arc::new(x)`

-- `let (tx, rx) = unbounded::<(Message<Request>, ResultSender<T, Error>)>();`
pub record Channel (Ty : Type 0) : Type 0 where
  pub tx : String
  pub rx : String
  pub result : Ty

-- The code for one method that uses the table of requests: an arm of `handle_message`, with the
-- variant of `Response`, or a loop of `shutdown`.
pub record Handler : Type 0 where
  pub variant : String
  pub requests : String
  pub is_stream : Bool

pub record Drainer : Type 0 where
  pub requests : String
  pub is_stream : Bool

-- An arm of the `select!` in `consume_unreliable`.
pub record SelectArm : Type 0 where
  pub option : String
  pub receiver : String
  pub requests : String
  pub is_stream : Bool

-- `StreamRequest::new(self.senders.x.clone(), ..)` or `ValueRequest::new(self.senders.x.clone(), ..)`
pub record NewFuture : Type 0 where
  pub sender : String
  pub is_stream : Bool

-- `ConsumerState::new`, `handle_message` and `shutdown`.
pub record ImplState (Ty : Type 0) : Type 0 where
  pub channels : List (Channel Ty)
  pub senders : List (String × Init)
  pub items : List (String × Init)
  pub handlers : List Handler
  pub drainers : List Drainer

pub record ConsumerCode (Ty : Type 0) : Type 0 where
  pub senders : Fields Ty  -- of `Senders`
  pub state : Fields Ty  -- of `ConsumerState`
  pub impl_state : ImplState Ty
  pub arms : List SelectArm
  pub calls : List (Call Ty)
  pub futures : List NewFuture  -- what each of the calls makes

abbrev pub concat : {A : Type 0} → List (List A) → List A
concat [] = []
concat (xs ∷ xss) = xs ++ concat xss

module _ (syn : Syntax) where
  abbrev pub ident_sender : Method syn.Ty → String
  ident_sender m = syn.to_snake m.ident <> "__sender"

  abbrev pub ident_receiver : Method syn.Ty → String
  ident_receiver m = syn.to_snake m.ident <> "__receiver"

  abbrev pub ident_requests : Method syn.Ty → String
  ident_requests m = syn.to_snake m.ident <> "__requests"

  abbrev pub ident_option : Method syn.Ty → String
  ident_option m = syn.to_snake m.ident <> "__option"

  unfoldable pub sender_field : Method syn.Ty → Option (String × FieldType syn.Ty)
  sender_field m = do
    t ← extract_return_type syn m.output
    some (ident_sender m, FieldType.arc (FieldType.sender t))

  unfoldable pub consumer_senders : List (TraitItem syn.Ty) → Option (Fields syn.Ty)
  unfolding sender_field
  consumer_senders items = each sender_field (methods items)

  unfoldable pub channel : Method syn.Ty → Option (Channel syn.Ty)
  channel m = do
    t ← extract_return_type syn m.output
    some (record { tx = ident_sender m; rx = ident_receiver m; result = t })

  unfoldable pub sender_init : Method syn.Ty → String × Init
  sender_init m = (ident_sender m, Init.arc_new (ident_sender m))

  unfoldable pub state_inits : Method syn.Ty → List (String × Init)
  state_inits m =
      (ident_requests m, Init.new_map) ∷ (ident_receiver m, Init.local (ident_receiver m)) ∷ []

  unfoldable pub handler : Method syn.Ty → Handler
  handler m = record {
    variant = syn.to_pascal m.ident;
    requests = ident_requests m;
    is_stream = is_stream syn m.output;
  }

  unfoldable pub drainer : Method syn.Ty → Drainer
  drainer m = record { requests = ident_requests m; is_stream = is_stream syn m.output }

  unfoldable pub impl_consumer_state : List (TraitItem syn.Ty) → Option (ImplState syn.Ty)
  unfolding channel sender_init state_inits handler drainer
  impl_consumer_state items = do
    channels ← each channel (methods items)
    some (record {
      channels = channels;
      senders = map sender_init (methods items);
      items = ("pending", Init.zero) ∷ concat (map state_inits (methods items));
      handlers = map handler (methods items);
      drainers = map drainer (methods items);
    })

  unfoldable pub state_fields : Method syn.Ty → Option (Fields syn.Ty)
  state_fields m = do
    t ← extract_return_type syn m.output
    some (
        (
          ident_requests m,
          if is_stream syn m.output then FieldType.stream_table t else FieldType.value_table t,
        )
        ∷ (ident_receiver m, FieldType.receiver t)
        ∷ [])

  unfoldable pub consumer_state :
      List (TraitItem syn.Ty) → Option (Fields syn.Ty × ImplState syn.Ty)
  unfolding state_fields impl_consumer_state
  consumer_state items = do
    fields ← each state_fields (methods items)
    code ← impl_consumer_state items
    some (("pending", FieldType.usize) ∷ concat fields, code)

  unfoldable pub select_arm : Method syn.Ty → SelectArm
  select_arm m = record {
    option = ident_option m;
    receiver = ident_receiver m;
    requests = ident_requests m;
    is_stream = is_stream syn m.output;
  }

  unfoldable pub impl_consume : List (TraitItem syn.Ty) → List SelectArm
  unfolding select_arm
  impl_consume items = map select_arm (methods items)

  -- The body of a method of the consumer, which `impl_api` puts out with the call.
  unfoldable pub new_future : Method syn.Ty → NewFuture
  new_future m = record { sender = ident_sender m; is_stream = is_stream syn m.output }

  unfoldable pub consumer : List (TraitItem syn.Ty) → Option (ConsumerCode syn.Ty)
  unfolding consumer_senders consumer_state impl_consume new_future
  consumer items = do
    senders ← consumer_senders items
    state ← consumer_state items
    calls ← impl_api syn items
    some (record {
      senders = senders;
      state = state.0;
      impl_state = state.1;
      arms = impl_consume items;
      calls = calls;
      futures = map new_future (methods items);
    })
