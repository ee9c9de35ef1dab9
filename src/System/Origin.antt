-- ===== src/System/Origin.antt =====
-- Every step of the system keeps to its log.
use mathlib.Core.List.{Memᴰ}
use zzrpc.Prelude.{ℕ, ◌≡◌, refl, Bool, some, List, [], ◌∷◌, ◌++◌, map, subst, sym}
use zzrpc.Message.{Request, Response, Message}
use zzrpc.Consumer.Loop
use zzrpc.Consumer.Tables.{IsDistinct}
use zzrpc.Producer.Loop as Main
use zzrpc.Producer.Requests as Requests
use zzrpc.Producer.Task.{value_task, stream_loop, stream_task}
use zzrpc.System.{
  asks, aborts, System, starting, serving, task_of, Step, call, poll, abort, take, receive, other,
  produce, produce_other, finish, open_stream, serve, end_stream, stop, forward, lose, after_main,
}
use zzrpc.System.Sound.{requests-none}
use zzrpc.System.Log.{Log, step_log}
use zzrpc.System.Genuine.{
  All, All-append, All-split, CallFits, SentFits, RequestFits, TaskFits, MessageFits, Fits,
}
use zzrpc.System.Effects.{
  delivered-Fits, take-RoundFits, receive-RoundFits, other-RoundFits, spawned-Fits, told-Fits,
}
use zzrpc.System.Fresh.{lookup_top}

All-insert :
    {A : Type 0} (P : A → Type 0) (xs : List A) (x : A) (ys : List A)
    → P x
    → All P (xs ++ ys)
    → All P (xs ++ x ∷ ys)
All-insert P [] x ys p q = (p, q)
All-insert P (y ∷ xs) x ys p q = (q.0, All-insert P xs x ys p q.1)

-- One more at the end.
All-snoc :
    {A : Type 0} (P : A → Type 0) (xs : List A) (x : A) → All P xs → P x → All P (xs ++ x ∷ [])
All-snoc P xs x p q = All-append P xs (x ∷ []) p (q, tt)

-- One taken out of the list `l`.
pub All-take :
    {A : Type 0} (P : A → Type 0) (l xs : List A) (x : A) (ys : List A)
    → l ≡ xs ++ x ∷ ys
    → All P l
    → P x × All P (xs ++ ys)
All-take P l xs x ys e p = All-split P xs x ys (subst (All P) e p)

module _ {R T S P : Type 0} (F : Type 0) (method_of : R → ℕ) (l : Log R T) where
  -- A round of the main task, with the requests that it read.
  main-Fits :
      (s : System R T S P) (round : Main.Round R T P) (asked : List (ℕ × R)) (ms : List (Request R))
      → Requests.Tells R T F P asked round
      → All (RequestFits method_of l) ms
      → All (TaskFits method_of l) (map (task_of method_of) asked)
      → Fits method_of l s
      → Fits method_of l (record (after_main method_of s round) { to_producer = ms })
  main-Fits s round asked ms tells rest spawned f = record {
    unsent = f.unsent;
    channel = f.channel;
    to_producer = rest;
    tasks = All-append (TaskFits method_of l) s.tasks _ f.tasks (
        subst (λ rs. All (TaskFits method_of l) (map (task_of method_of) rs)) (sym tells.0)
          spawned);
    replies =
        All-append (MessageFits method_of l) s.replies _ f.replies
          (told-Fits method_of l F P asked round tells);
    to_consumer = f.to_consumer;
    consumer = f.consumer;
  }

module _ {R T E F S P : Type 0} (kinds : List Bool) (method_of : R → ℕ) (c : Loop.Settings E S)
    (d : Main.Settings F P) where
  -- A step keeps what is on its way in accord with the log, where the log has grown before.
  pub kept-Fits :
      {s t : System R T S P} (l : Log R T) (x : Step kinds method_of c d s t)
      → IsDistinct s.consumer
      → Fits method_of (step_log x l) s
      → Fits method_of (step_log x l) t
  unfolding value_task stream_task stream_loop
  kept-Fits {s} l (call r small) i f =
      let grown : Log R T = record l { called = (s.next_id, r) ∷ l.called } in
      record {
        unsent =
            All-snoc (CallFits method_of grown) s.unsent (s.next_id, r) f.unsent
              (lookup_top s.next_id r l.called);
        channel = f.channel;
        to_producer = f.to_producer;
        tasks = f.tasks;
        replies = f.replies;
        to_consumer = f.to_consumer;
        consumer = f.consumer;
      }
  kept-Fits {s} l (poll n xs ys id r sender b e at fits) i f =
      let grown : Log R T = record l { senders = (id, sender) ∷ l.senders } in
      let (h, rest) = All-take (CallFits method_of grown) s.unsent xs (id, r) ys e f.unsent in
      record {
        unsent = rest;
        channel =
            All-snoc (SentFits method_of grown) s.channel (asks (method_of r) id r sender) f.channel
              (h, refl, lookup_top id sender l.senders);
        to_producer = f.to_producer;
        tasks = f.tasks;
        replies = f.replies;
        to_consumer = f.to_consumer;
        consumer = f.consumer;
      }
  kept-Fits {s} l (abort k id b at old) i f = record {
    unsent = f.unsent;
    channel = All-snoc (SentFits method_of l) s.channel (aborts k id) f.channel tt;
    to_producer = f.to_producer;
    tasks = f.tasks;
    replies = f.replies;
    to_consumer = f.to_consumer;
    consumer = f.consumer;
  }
  kept-Fits {s} l (take xs ys x failure e first goes) i f =
      let (h, rest) = All-take (SentFits method_of l) s.channel xs x ys e f.channel in
      record {
        unsent = f.unsent;
        channel = rest;
        to_producer =
            All-append (RequestFits method_of l) s.to_producer _ f.to_producer
              (delivered-Fits method_of l x failure h);
        tasks = f.tasks;
        replies = f.replies;
        to_consumer = f.to_consumer;
        consumer =
            (take-RoundFits method_of l c s.callback s.consumer x failure i f.consumer h goes).0;
      }
  kept-Fits {s} l (receive m ms e goes) i f =
      let (h, rest) = subst (All (MessageFits method_of l)) e f.to_consumer in
      record {
        unsent = f.unsent;
        channel = f.channel;
        to_producer = f.to_producer;
        tasks = f.tasks;
        replies = f.replies;
        to_consumer = rest;
        consumer = (receive-RoundFits method_of l c s.callback s.consumer m i f.consumer h goes).0;
      }
  kept-Fits {s} l (other event h goes) i f = record {
    unsent = f.unsent;
    channel = f.channel;
    to_producer = f.to_producer;
    tasks = f.tasks;
    replies = f.replies;
    to_consumer = f.to_consumer;
    consumer = (other-RoundFits method_of l c s.callback s.consumer event f.consumer h goes).0;
  }
  kept-Fits {s} l (produce p m ms ch on e) i f =
      let (h, rest) = subst (All (RequestFits method_of l)) e f.to_producer in
      let event : Main.Event R F = Main.received (some (Main.Received.ok m ch)) in
      main-Fits F method_of l s (Main.step d s.its_callback p event) (Requests.asked m.id m.payload)
        ms (Requests.step-Tells R T F P d s.its_callback p event) rest
        (spawned-Fits method_of l m.id m.payload h) f
  kept-Fits {s} l (produce_other p event on h) i f =
      main-Fits F method_of l s (Main.step d s.its_callback p event) (Requests.requests_of event)
        s.to_producer (Requests.step-Tells R T F P d s.its_callback p event) f.to_producer
        (subst (λ rs. All (TaskFits method_of l) (map (task_of method_of) rs))
          (sym (requests-none R F event h)) tt)
        f
  kept-Fits {s} l (finish xs ys id k x e at) i f =
      let grown : Log R T = record l { given = (id, k, x) ∷ l.given } in
      let (h, rest) = All-take (TaskFits method_of grown) s.tasks xs (starting id k) ys e f.tasks in
      record {
        unsent = f.unsent;
        channel = f.channel;
        to_producer = f.to_producer;
        tasks = rest;
        replies =
            All-snoc (MessageFits method_of grown) s.replies
              (Message.response id (Response.value k x)) f.replies (h, Memᴰ.head refl);
        to_consumer = f.to_consumer;
        consumer = f.consumer;
      }
  kept-Fits {s} l (open_stream xs ys id k e at) i f =
      let (h, rest) = All-take (TaskFits method_of l) s.tasks xs (starting id k) ys e f.tasks in
      record {
        unsent = f.unsent;
        channel = f.channel;
        to_producer = f.to_producer;
        tasks = All-insert (TaskFits method_of l) xs (serving id k) ys h rest;
        replies = All-snoc (MessageFits method_of l) s.replies _ f.replies tt;
        to_consumer = f.to_consumer;
        consumer = f.consumer;
      }
  kept-Fits {s} l (serve xs ys id k x e) i f =
      let grown : Log R T = record l { given = (id, k, x) ∷ l.given } in
      let (h, rest) = All-take (TaskFits method_of grown) s.tasks xs (serving id k) ys e f.tasks in
      record {
        unsent = f.unsent;
        channel = f.channel;
        to_producer = f.to_producer;
        tasks = f.tasks;
        replies = All-snoc (MessageFits method_of grown) s.replies _ f.replies (h, Memᴰ.head refl);
        to_consumer = f.to_consumer;
        consumer = f.consumer;
      }
  kept-Fits {s} l (end_stream xs ys id k e) i f =
      let (h, rest) = All-take (TaskFits method_of l) s.tasks xs (serving id k) ys e f.tasks in
      record {
        unsent = f.unsent;
        channel = f.channel;
        to_producer = f.to_producer;
        tasks = rest;
        replies = All-snoc (MessageFits method_of l) s.replies _ f.replies tt;
        to_consumer = f.to_consumer;
        consumer = f.consumer;
      }
  kept-Fits {s} l (stop xs ys task e) i f = record {
    unsent = f.unsent;
    channel = f.channel;
    to_producer = f.to_producer;
    tasks = (All-take (TaskFits method_of l) s.tasks xs task ys e f.tasks).1;
    replies = f.replies;
    to_consumer = f.to_consumer;
    consumer = f.consumer;
  }
  kept-Fits {s} l (forward m ms e) i f =
      let (h, rest) = subst (All (MessageFits method_of l)) e f.replies in
      record {
        unsent = f.unsent;
        channel = f.channel;
        to_producer = f.to_producer;
        tasks = f.tasks;
        replies = rest;
        to_consumer = All-snoc (MessageFits method_of l) s.to_consumer m f.to_consumer h;
        consumer = f.consumer;
      }
  kept-Fits {s} l (lose m ms e h) i f = record {
    unsent = f.unsent;
    channel = f.channel;
    to_producer = f.to_producer;
    tasks = f.tasks;
    replies = (subst (All (MessageFits method_of l)) e f.replies).1;
    to_consumer = f.to_consumer;
    consumer = f.consumer;
  }
