-- ===== src/System/Growth.antt =====
-- What fits a log fits a longer one.
use mathlib.Core.List.{Memᴰ}
use zzrpc.Prelude.{ℕ, ◌≡◌, Option, none, some, ◌∷◌, arith, get_elem?}
use zzrpc.Prelude.Table.{Table, lookup}
use zzrpc.Message.{Payload, Response, StreamResponse, Message, Result, ResultSender}
use zzrpc.Consumer.State.{
  Effect, reset_timeout, send_message, send_result, send_open, send_item, drop_sender, drop_values,
  Entry, Slot,
}
use zzrpc.Consumer.Routing.{value_in, stream_in}
use zzrpc.System.{Sent, asks, aborts, Task, starting, serving, System}
use zzrpc.System.Log.{Log}
use zzrpc.System.Genuine.{
  All-mono, Called, Given, CallFits, SentFits, PayloadFits, TaskFits, MessageFits, ValueFits,
  EntryFits, SlotAt, EffectFits, Fits,
}

pub record Grows {R T : Type 0} (l l' : Log R T) : Type 0 where
  pub called : (id : ℕ) (r : R) → lookup id l.called ≡ some r → lookup id l'.called ≡ some r
  pub senders :
      (id : ℕ) (r : ResultSender) → lookup id l.senders ≡ some r → lookup id l'.senders ≡ some r
  pub given : (y : ℕ × ℕ × T) → Memᴰ y l.given → Memᴰ y l'.given

-- A new key hides no other.
lookup_new :
    {A : Type 0} (id : ℕ) (x : A) (t : Table A) (j : ℕ) (y : A)
    → lookup id t ≡ none
    → lookup j t ≡ some y
    → lookup j ((id, x) ∷ t) ≡ some y
unfolding lookup
lookup_new id x t j y n h = ground arith

module _ {R T : Type 0} (l : Log R T) where
  pub Grows-refl : Grows l l
  Grows-refl = record { called = λ id r h. h; senders = λ id r h. h; given = λ y h. h }

  pub called-Grows :
      (id : ℕ) (r : R)
      → lookup id l.called ≡ none
      → Grows l (record l { called = (id, r) ∷ l.called })
  called-Grows id r n = record {
    called = λ j a h. lookup_new id r l.called j a n h;
    senders = λ j a h. h;
    given = λ y h. h;
  }

  pub senders-Grows :
      (id : ℕ) (r : ResultSender)
      → lookup id l.senders ≡ none
      → Grows l (record l { senders = (id, r) ∷ l.senders })
  senders-Grows id r n = record {
    called = λ j a h. h;
    senders = λ j a h. lookup_new id r l.senders j a n h;
    given = λ y h. h;
  }

  pub given-Grows : (z : ℕ × ℕ × T) → Grows l (record l { given = z ∷ l.given })
  given-Grows z = record { called = λ j a h. h; senders = λ j a h. h; given = λ y h. Memᴰ.tail h }

module _ {R T : Type 0} (method_of : R → ℕ) (l l' : Log R T) (g : Grows l l') where
  Called-mono : (id k : ℕ) → Called method_of l id k → Called method_of l' id k
  Called-mono id k (r, e, m) = (r, g.called id r e, m)

  Given-mono : (id k : ℕ) (x : T) → Given method_of l id k x → Given method_of l' id k x
  Given-mono id k x (a, m) = (Called-mono id k a, g.given (id, k, x) m)

  CallFits-mono : (x : ℕ × R) → CallFits method_of l x → CallFits method_of l' x
  CallFits-mono (id, r) h = g.called id r h

  SentFits-mono : (x : Sent R) → SentFits method_of l x → SentFits method_of l' x
  SentFits-mono (asks k id r sender) (h, m, p) = (g.called id r h, m, g.senders id sender p)
  SentFits-mono (aborts k id) h = tt

  PayloadFits-mono :
      (id : ℕ) (p : Payload R) → PayloadFits method_of l id p → PayloadFits method_of l' id p
  PayloadFits-mono id (Payload.request r) h = g.called id r h
  PayloadFits-mono id Payload.abort h = tt

  TaskFits-mono : (x : Task) → TaskFits method_of l x → TaskFits method_of l' x
  TaskFits-mono (starting id k) h = Called-mono id k h
  TaskFits-mono (serving id k) h = Called-mono id k h

  MessageFits-mono : (m : Message T) → MessageFits method_of l m → MessageFits method_of l' m
  MessageFits-mono (Message.response id (Response.value k x)) h = Given-mono id k x h
  MessageFits-mono (Message.response id (Response.stream k (StreamResponse.item x))) h =
      Given-mono id k x h
  MessageFits-mono (Message.response id (Response.stream k StreamResponse.open_)) h = tt
  MessageFits-mono (Message.response id (Response.stream k StreamResponse.closed)) h = tt
  MessageFits-mono Message.aborted h = tt
  MessageFits-mono Message.shutdown h = tt

  ValueFits-mono :
      (id : ℕ) (o : Option ℕ) → ValueFits method_of l id o → ValueFits method_of l' id o
  ValueFits-mono id none h = tt
  ValueFits-mono id (some sender) h = g.senders id (ResultSender.value sender) h

  EntryFits-mono :
      (id : ℕ) (o : Option Entry) → EntryFits method_of l id o → EntryFits method_of l' id o
  EntryFits-mono id none h = tt
  EntryFits-mono id (some entry) (sender, h) =
      (sender, g.senders id (ResultSender.stream sender entry.items) h)

  SlotAt-mono : (o : Option Slot) → SlotAt method_of l o → SlotAt method_of l' o
  SlotAt-mono none h = tt
  SlotAt-mono (some slot) h = λ id. (
    ValueFits-mono id (value_in (some slot) id) (h id).0,
    EntryFits-mono id (stream_in (some slot) id) (h id).1,
  )

  pub EffectFits-mono :
      {E : Type 0} (e : Effect R T E) → EffectFits method_of l e → EffectFits method_of l' e
  EffectFits-mono (send_result sender (Result.ok x)) (id, k, a, h) =
      (id, k, Given-mono id k x a, g.senders id (ResultSender.value sender) h)
  EffectFits-mono (send_result sender (Result.err e)) h = tt
  EffectFits-mono (send_item items x) (id, k, sender, a, h) =
      (id, k, sender, Given-mono id k x a, g.senders id (ResultSender.stream sender items) h)
  EffectFits-mono reset_timeout h = tt
  EffectFits-mono (send_message m) h = tt
  EffectFits-mono (send_open sender r) h = tt
  EffectFits-mono (drop_sender sender) h = tt
  EffectFits-mono (drop_values items) h = tt

  pub Fits-mono : {S P : Type 0} (s : System R T S P) → Fits method_of l s → Fits method_of l' s
  Fits-mono s f = record {
    unsent = All-mono _ _ s.unsent CallFits-mono f.unsent;
    channel = All-mono _ _ s.channel SentFits-mono f.channel;
    to_producer = All-mono _ _ s.to_producer (λ m. PayloadFits-mono m.id m.payload) f.to_producer;
    tasks = All-mono _ _ s.tasks TaskFits-mono f.tasks;
    replies = All-mono _ _ s.replies MessageFits-mono f.replies;
    to_consumer = All-mono _ _ s.to_consumer MessageFits-mono f.to_consumer;
    consumer = λ k. SlotAt-mono (get_elem? s.consumer.slots k) (f.consumer k);
  }
