-- ===== src/System/Genuine.antt =====
-- Which messages, tables and effects agree with the log.
use mathlib.Core.List.{Memᴰ}
use zzrpc.Prelude.{ℕ, ◌≡◌, Option, none, some, List, [], ◌∷◌, ◌++◌, get_elem?}
use zzrpc.Prelude.Table.{lookup}
use zzrpc.Message.{Request, Payload, Response, StreamResponse, Message, Result, ResultSender}
use zzrpc.Consumer.State.{Effect, send_result, send_item, Entry, Slot, State}
use zzrpc.Consumer.Routing.{value_in, stream_in}
use zzrpc.System.{Sent, asks, aborts, Task, starting, serving, System}
use zzrpc.System.Log.{Log}

abbrev pub All : {A : Type 0} → (A → Type 0) → List A → Type 0
All P [] = Unit {0}
All P (x ∷ xs) = P x × All P xs

module _ {A : Type 0} (P : A → Type 0) where
  pub All-append : (xs ys : List A) → All P xs → All P ys → All P (xs ++ ys)
  All-append [] ys p q = q
  All-append (x ∷ xs) ys p q = (p.0, All-append xs ys p.1 q)

  pub All-split :
      (xs : List A) (x : A) (ys : List A) → All P (xs ++ x ∷ ys) → P x × All P (xs ++ ys)
  All-split [] x ys p = p
  All-split (y ∷ xs) x ys p = let (a, b) = All-split xs x ys p.1 in (a, (p.0, b))

pub All-mono :
    {A : Type 0} (P Q : A → Type 0) (xs : List A) → ((x : A) → P x → Q x) → All P xs → All Q xs
All-mono P Q [] f p = tt
All-mono P Q (x ∷ xs) f p = (f x p.0, All-mono P Q xs f p.1)

module _ {R T : Type 0} (method_of : R → ℕ) (l : Log R T) where
  -- The id is that of a call of the method.
  abbrev pub Called : ℕ → ℕ → Type 0
  Called id k = (r : R) × (lookup id l.called ≡ some r) × (method_of r ≡ k)

  -- The task of the call gave the value.
  abbrev pub Given : ℕ → ℕ → T → Type 0
  Given id k x = Called id k × Memᴰ (id, k, x) l.given

  abbrev pub CallFits : ℕ × R → Type 0
  CallFits (id, r) = lookup id l.called ≡ some r

  abbrev pub SentFits : Sent R → Type 0
  SentFits (asks k id r sender) =
      (lookup id l.called ≡ some r) × (method_of r ≡ k) × (lookup id l.senders ≡ some sender)
  SentFits (aborts k id) = Unit {0}

  abbrev pub PayloadFits : ℕ → Payload R → Type 0
  PayloadFits id (Payload.request r) = lookup id l.called ≡ some r
  PayloadFits id Payload.abort = Unit {0}

  abbrev pub RequestFits : Request R → Type 0
  RequestFits m = PayloadFits m.id m.payload

  abbrev pub TaskFits : Task → Type 0
  TaskFits (starting id k) = Called id k
  TaskFits (serving id k) = Called id k

  abbrev pub ResponseFits : ℕ → Response T → Type 0
  ResponseFits id (Response.value k x) = Given id k x
  ResponseFits id (Response.stream k (StreamResponse.item x)) = Given id k x
  ResponseFits id (Response.stream k _) = Unit {0}

  abbrev pub MessageFits : Message T → Type 0
  MessageFits (Message.response id r) = ResponseFits id r
  MessageFits _ = Unit {0}

  -- The senders that the consumer keeps are those of the first poll of the id.
  abbrev pub ValueFits : ℕ → Option ℕ → Type 0
  ValueFits id none = Unit {0}
  ValueFits id (some sender) = lookup id l.senders ≡ some (ResultSender.value sender)

  abbrev pub EntryFits : ℕ → Option Entry → Type 0
  EntryFits id none = Unit {0}
  EntryFits id (some entry) =
      (sender : ℕ) × (lookup id l.senders ≡ some (ResultSender.stream sender entry.items))

  abbrev pub SlotFits : Slot → Type 0
  SlotFits slot =
      (id : ℕ) → ValueFits id (value_in (some slot) id) × EntryFits id (stream_in (some slot) id)

  abbrev pub SlotAt : Option Slot → Type 0
  SlotAt none = Unit {0}
  SlotAt (some slot) = SlotFits slot

  abbrev pub StateFits : State → Type 0
  StateFits s = (k : ℕ) → SlotAt (get_elem? s.slots k)

  -- A value goes to the sender of its call, and so does an item.
  abbrev pub EffectFits : {E : Type 0} → Effect R T E → Type 0
  EffectFits (send_result sender (Result.ok x)) =
      (id : ℕ) × (k : ℕ) × Given id k x × (lookup id l.senders ≡ some (ResultSender.value sender))
  EffectFits (send_item items x) =
      (id : ℕ) × (k : ℕ) × (sender : ℕ) × Given id k x
      × (lookup id l.senders ≡ some (ResultSender.stream sender items))
  EffectFits _ = Unit {0}

  -- All that is on its way in a state.
  pub record Fits {S P : Type 0} (s : System R T S P) : Type 0 where
    pub unsent : All CallFits s.unsent
    pub channel : All SentFits s.channel
    pub to_producer : All RequestFits s.to_producer
    pub tasks : All TaskFits s.tasks
    pub replies : All MessageFits s.replies
    pub to_consumer : All MessageFits s.to_consumer
    pub consumer : StateFits s.consumer
