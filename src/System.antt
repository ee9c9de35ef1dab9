-- ===== src/System.antt =====
-- The whole program: request futures, the channels of the methods, the task of the consumer, a
-- transport that keeps the order, the tasks of the producer. A step is one action of one part; the
-- parts take their steps in any order. Requests name their methods: `method_of` stands for the
-- variant of the generated `Request`, and `kinds` tells which methods return a stream.
pub mod Counts
pub mod Network
pub mod Tasks
pub mod Rounds
pub mod Consuming
pub mod Sound
pub mod Idle
pub mod Panics
pub mod Log
pub mod Genuine
pub mod Delivery
pub mod Growth
pub mod Effects
pub mod Fresh
pub mod Origin
pub mod Answers
pub mod Bounds
pub mod Order
use zzrpc.Prelude.{
  ℕ, ◌+◌, ◌<◌, ◌≡◌, Bool, true, false, Option, none, some, List, [], ◌∷◌, ◌++◌, map, get_elem?,
  usize_mod, if◌then◌else◌, ◌==◌, ◌||◌,
}
use zzrpc.Rpc.{TransportError}
use zzrpc.Message.{Request, Payload, ResultSender, Response, StreamResponse, Message}
use zzrpc.Consumer.State
use zzrpc.Consumer.Take.{continue_}
use zzrpc.Consumer.Loop
use zzrpc.Client.Sending.{first_sent}
use zzrpc.Producer.Task.{
  TaskEffect, reply, remove_aborter, ValueEvent, StreamEvent, value_task, stream_loop, stream_task,
}
use zzrpc.Producer.Loop as Main
use zzrpc.Producer.Requests

-- What a future, an aborter or a drop puts on the channel of a method.
pub data Sent (R : Type 0) : Type 0 where
  asks : (k id : ℕ) → R → ResultSender → Sent R
  aborts : (k id : ℕ) → Sent R

abbrev pub channel_of : {R : Type 0} → Sent R → ℕ
channel_of (asks k id r sender) = k
channel_of (aborts k id) = k

abbrev pub message_of : {R : Type 0} → Sent R → Request R
message_of (asks k id r sender) = record { id = id; payload = Payload.request r }
message_of (aborts k id) = record { id = id; payload = Payload.abort }

abbrev pub sender_of : {R : Type 0} → Sent R → ResultSender
sender_of (asks k id r sender) = sender
sender_of (aborts k id) = ResultSender.abort

-- A task of the producer: before it opened its stream or gave its value, or after it opened it.
pub data Task : Type 0 where
  starting : (id k : ℕ) → Task
  serving : (id k : ℕ) → Task

pub record System (R T S P : Type 0) : Type 0 where
  pub next_id : ℕ
  -- Futures that were not polled yet.
  pub unsent : List (ℕ × R)
  -- The channels of the methods, as one list; each method reads its own part in order.
  pub channel : List (Sent R)
  pub consumer : State.State
  pub callback : S
  pub to_producer : List (Request R)
  -- `none` once the main task has returned.
  pub producer : Option Main.State
  pub its_callback : P
  pub tasks : List Task
  pub replies : List (Message T)
  pub to_consumer : List (Message T)

-- What the transport delivers of a message, by the error of its sending.
abbrev pub delivered : {A E : Type 0} → A → Option E → List A
delivered m none = m ∷ []
delivered m (some e) = []

-- No earlier entry is for the method.
abbrev pub skips : {R : Type 0} → ℕ → List (Sent R) → Bool
skips k [] = true
skips k (x ∷ xs) = if channel_of x == k then false else skips k xs

abbrev pub is_open : {T : Type 0} → Message T → Bool
is_open (Message.response id (Response.stream k StreamResponse.open_)) = true
is_open _ = false

-- The replies among the effects of a task.
abbrev pub said : {T : Type 0} → List (TaskEffect T) → List (Message T)
said [] = []
said (reply m ∷ effects) = m ∷ said effects
said (remove_aborter id ∷ effects) = said effects

-- An event that neither is a request nor a message of the producer.
abbrev pub other_event : {R T E : Type 0} → Loop.Event R T E → Bool
other_event (Loop.received (some (Loop.Received.ok m))) = false
other_event (Loop.requested k (some taken)) = false
other_event _ = true

-- An event that is no message of the consumer.
abbrev pub other_main_event : {R E : Type 0} → Main.Event R E → Bool
other_main_event (Main.received (some (Main.Received.ok m ch))) = false
other_main_event _ = true

abbrev pub task_of : {R : Type 0} → (R → ℕ) → ℕ × R → Task
task_of method_of (id, r) = starting id (method_of r)

abbrev pub continues : Bool → Main.State → Option Main.State
continues true p = some p
continues false p = none

abbrev pub after_round : {R T E S P : Type 0} → System R T S P → Loop.Round R T E S → System R T S P
after_round s round = record s { consumer = round.state; callback = round.callback }

abbrev pub after_main :
    {R T S P : Type 0} → (R → ℕ) → System R T S P → Main.Round R T P → System R T S P
after_main method_of s round = record s {
  producer = continues round.goes_on round.state;
  its_callback = round.callback;
  tasks = s.tasks ++ map (task_of method_of) (Requests.spawns round.effects);
  replies = s.replies ++ Requests.replies round.effects;
}

-- The event that the consumer takes a request, and the transport fails on it or not.
abbrev pub taken : {R T E : Type 0} → Sent R → Option (TransportError E) → Loop.Event R T E
taken x failure =
    Loop.requested (channel_of x)
      (some (record { message = message_of x; result_sender = sender_of x; failure = failure }))

module _ {R T E F S P : Type 0} (kinds : List Bool) (method_of : R → ℕ) (c : Loop.Settings E S)
    (d : Main.Settings F P) where
  -- The round of the consumer for an event.
  abbrev pub round_of : System R T S P → Loop.Event R T E → Loop.Round R T E S
  round_of s event = Loop.step c s.callback s.consumer event

  pub data Step (s : System R T S P) : System R T S P → Type 0 where
    -- A method of the consumer is called: the future has the next id. Below `usize_mod` calls the
    -- counter does not wrap.
    call :
        (r : R)
        → s.next_id < usize_mod
        → Step s (record s { next_id = s.next_id + 1; unsent = s.unsent ++ (s.next_id, r) ∷ [] })
    -- The first poll of a future, a `StreamRequest` if the method returns a stream and else a
    -- `ValueRequest`, sends one message; the next channel has the number `n`.
    poll :
        (n : ℕ) (xs ys : List (ℕ × R)) (id : ℕ) (r : R) (sender : ResultSender) (b : Bool)
        → s.unsent ≡ xs ++ (id, r) ∷ ys
        → get_elem? kinds (method_of r) ≡ some b
        → first_sent T E b id r n ≡ (message_of (asks (method_of r) id r sender), sender) ∷ []
        → Step s (record s {
          unsent = xs ++ ys;
          channel = s.channel ++ asks (method_of r) id r sender ∷ [];
        })
    -- An aborter is used, or a future or a stream is dropped: any time after the call.
    abort :
        (k id : ℕ) (b : Bool)
        → get_elem? kinds k ≡ some b
        → id < s.next_id
        → Step s (record s { channel = s.channel ++ aborts k id ∷ [] })
    -- The consumer takes a request from the channel of its method, and sends it.
    take :
        (xs ys : List (Sent R)) (x : Sent R) (failure : Option (TransportError E))
        → s.channel ≡ xs ++ x ∷ ys
        → skips (channel_of x) xs ≡ true
        → (round_of s (taken x failure)).flow ≡ continue_
        → Step s (record (after_round s (round_of s (taken x failure))) {
          channel = xs ++ ys;
          to_producer = s.to_producer ++ delivered (message_of x) failure;
        })
    -- The consumer receives a message.
    receive :
        (m : Message T) (ms : List (Message T))
        → s.to_consumer ≡ m ∷ ms
        → (round_of s (Loop.received (some (Loop.Received.ok m)))).flow ≡ continue_
        → Step s (record (after_round s (round_of s (Loop.received (some (Loop.Received.ok m))))) {
          to_consumer = ms;
        })
    -- Another round of the consumer that goes on.
    other :
        (event : Loop.Event R T E)
        → other_event event ≡ true
        → (round_of s event).flow ≡ continue_
        → Step s (after_round s (round_of s event))
    -- The main task of the producer reads a message, or has another round.
    produce :
        (p : Main.State) (m : Request R) (ms : List (Request R)) (ch : ℕ)
        → s.producer ≡ some p
        → s.to_producer ≡ m ∷ ms
        → Step s
            (record (after_main method_of s
              (Main.step d s.its_callback p (Main.received (some (Main.Received.ok m ch))))) {
                to_producer = ms;
              })
    produce_other :
        (p : Main.State) (event : Main.Event R F)
        → s.producer ≡ some p
        → other_main_event event ≡ true
        → Step s (after_main method_of s (Main.step d s.its_callback p event))
    -- The task of a value method gives its value; that of a stream method opens its stream, passes
    -- on an item, and ends.
    finish :
        (xs ys : List Task) (id k : ℕ) (x : T)
        → s.tasks ≡ xs ++ starting id k ∷ ys
        → get_elem? kinds k ≡ some false
        → Step s (record s {
          tasks = xs ++ ys;
          replies = s.replies ++ said (value_task id k (ValueEvent.finished x));
        })
    open_stream :
        (xs ys : List Task) (id k : ℕ)
        → s.tasks ≡ xs ++ starting id k ∷ ys
        → get_elem? kinds k ≡ some true
        → Step s (record s {
          tasks = xs ++ serving id k ∷ ys;
          replies = s.replies ++ said (stream_task {T = T} id k []).0;
        })
    serve :
        (xs ys : List Task) (id k : ℕ) (x : T)
        → s.tasks ≡ xs ++ serving id k ∷ ys
        → Step s (record s {
          replies = s.replies ++ said (stream_loop id k (StreamEvent.next (some x) ∷ [])).0;
        })
    end_stream :
        (xs ys : List Task) (id k : ℕ)
        → s.tasks ≡ xs ++ serving id k ∷ ys
        → Step s (record s {
          tasks = xs ++ ys;
          replies = s.replies ++ said (stream_loop {T = T} id k (StreamEvent.next none ∷ [])).0;
        })
    -- A task is aborted.
    stop :
        (xs ys : List Task) (task : Task)
        → s.tasks ≡ xs ++ task ∷ ys
        → Step s (record s { tasks = xs ++ ys })
    -- A reply is sent through the transport. The transport may lose any but `Open`.
    forward :
        (m : Message T) (ms : List (Message T))
        → s.replies ≡ m ∷ ms
        → Step s (record s { replies = ms; to_consumer = s.to_consumer ++ m ∷ [] })
    lose :
        (m : Message T) (ms : List (Message T))
        → s.replies ≡ m ∷ ms
        → is_open m ≡ false
        → Step s (record s { replies = ms })

  -- Consumer and producer, just started.
  abbrev pub initial : S → P → System R T S P
  initial cb its_cb = record {
    next_id = 0;
    unsent = [];
    channel = [];
    consumer = State.new kinds;
    callback = cb;
    to_producer = [];
    producer = some Main.start;
    its_callback = its_cb;
    tasks = [];
    replies = [];
    to_consumer = [];
  }

  pub data Reach (cb : S) (its_cb : P) : System R T S P → Type 0 where
    start : Reach cb its_cb (initial cb its_cb)
    later : {s t : System R T S P} → Reach cb its_cb s → Step s t → Reach cb its_cb t
