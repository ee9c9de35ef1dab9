-- ===== src/Tests/Client.antt =====
-- The request futures over channels of a small concrete world.
use zzrpc.Prelude.{
  ℕ, ◌≡◌, refl, Bool, true, false, if◌then◌else◌, ◌==◌, ◌+◌, arith, Option, none, some, List, [],
  ◌∷◌, ◌++◌,
}
use zzrpc.Rpc.{Error}
use zzrpc.Rpc.Timeout.{Poll, ready, pending}
use zzrpc.Message.{Request, Payload, Result, ResultSender}
use zzrpc.Client.Channels.{Channels, ChannelLaws, Store, is_aborted, drop_taken}
use zzrpc.Client.Aborter.{Handle, Aborter, aborter, abort}
use zzrpc.Client.Value
use zzrpc.Client.Value.{ValueRequest}
use zzrpc.Client.Sending.{Wire, recording}
use zzrpc.Client.Value.Sends.{SendLaws, log, polls, asked, dropped, life-sends}
use zzrpc.Client.Futures.{polled_once}
use zzrpc.Client.Stream
use zzrpc.Client.Stream.{StreamRequest, no_handle}
use zzrpc.Client.Stream.Items
use zzrpc.Client.Stream.Items.{Stream}
use zzrpc.Client.Stream.Laws.{stream-poll-ignores_error}
use zzrpc.Client.Stream.Aborting.{stream-abort-ends}
use zzrpc.Client.Aborting.{abort-poll}

program : Unit {0}
unfolding Value.poll Value.new Value.is_terminated Stream.poll Stream.new Stream.is_terminated
    Items.poll_next Items.is_terminated aborter abort Stream.aborter_of Items.aborter_of
program = tt

-- The next channel, the messages sent, the channels of aborts that were sent.
record World : Type 0 where
  next : ℕ
  log : List (Request ℕ × ResultSender)
  aborts : List ℕ

abbrev among : ℕ → List ℕ → Bool
among n [] = false
among n (m ∷ ms) = if n == m then true else among n ms

abbrev abort_poll : Bool → Poll (Option (Unit {0}))
abort_poll true = ready (some tt)
abort_poll false = pending

-- What each receiver gives does not change; `is_open` tells whether the request channel is.
abbrev channels : (ℕ → Poll (Option (Result ℕ ℕ))) → Poll (Option ℕ) → Bool → Channels ℕ ℕ ℕ
channels results item is_open = record {
  World = World;
  oneshot = λ w. (w.next, record w { next = 1 + w.next });
  unbounded = λ w. (w.next, record w { next = 1 + w.next });
  send_request = λ m r w. (is_open, record w { log = (m, r) ∷ w.log });
  poll_result = λ ch w. (results ch, w);
  poll_open = λ ch w. (ready (some (Result.err Error.timeout)), w);
  poll_abort = λ ch w. (abort_poll (among ch w.aborts), w);
  poll_item = λ ch w. (item, w);
  send_abort = λ ch w. record w { aborts = ch ∷ w.aborts };
  drop_receiver = λ ch w. w;
}

-- The value answers 42; there is no item yet.
abbrev calm : Channels ℕ ℕ ℕ
calm = channels (λ ch. ready (some (Result.ok 42))) pending true

equal_self : (n : ℕ) → (n == n) ≡ true
equal_self n = ground arith

among_self : (n : ℕ) (ms : List ℕ) → among n (n ∷ ms) ≡ true
among_self n ms = rw (equal_self n) refl

poll_sent : (n : ℕ) (ms : List ℕ) → among n ms ≡ true → abort_poll (among n ms) ≡ ready (some tt)
poll_sent n ms e = rw e refl

abbrev laws : ChannelLaws calm
laws = record {
  IsOpen = λ ch w. Unit {0};
  IsSent = λ ch w. among ch w.aborts ≡ true;
  oneshot-IsOpen = λ w. tt;
  send_request-IsOpen = λ ch m r w o. tt;
  send_abort-IsSent = λ ch w o. among_self ch w.aborts;
  poll_item-IsSent = λ ch items w e. e;
  poll-sent = λ ch w e. poll_sent ch w.aborts e;
}

abbrev world : Store World
world = record { world = record { next = 5; log = []; aborts = 3 ∷ [] }; cells = some 3 ∷ [] }

abbrev no_item : Poll (Option ℕ)
no_item = pending

abbrev given_value : Poll (Option (Result ℕ ℕ))
given_value = ready (some (Result.ok 42))

-- Abort channel 3 has its value, abort channel 4 has not.
abbrev handle : ℕ → Handle
handle ch = record { aborter = some (record { id = 8; cell = 0 }); abort_receiver = some ch }

abbrev fresh : ValueRequest ℕ
fresh = Value.new 8 7

abbrev waiting : ValueRequest ℕ
waiting = record { id = 8; request = none; receiver = some 2; handle = handle 4 }

abbrev done : ValueRequest ℕ
done = record waiting { receiver = none }

abbrev polled : Poll (Result ℕ ℕ) × ValueRequest ℕ
polled = (Value.poll calm fresh world).0

polled_answer : polled.0 ≡ ready (Result.ok 42)
unfolding program
polled_answer = refl

abbrev wired : Channels ℕ ℕ ℕ
wired = recording ℕ ℕ ℕ

abbrev wired_laws : SendLaws wired
wired_laws = record {
  sent = λ w. w.sent;
  oneshot-sent = λ w. refl;
  send_request-sent = λ m r w. refl;
  poll_result-sent = λ ch w. refl;
  poll_abort-sent = λ ch w. refl;
  drop_receiver-sent = λ ch w. refl;
}

abbrev blank : Store (Wire ℕ)
blank = record { world = record { next = 4; sent = [] }; cells = [] }

-- Three polls, and the drop of a request that has no answer.
life-sends_example :
    let (me, t) = polls wired wired_laws 3 (Value.new 8 7) blank in
    log wired wired_laws (Value.drop wired me t).1
    ≡ []
      ++ asked wired wired_laws false 8 7 4
      ++ dropped wired wired_laws (Value.is_terminated me) 8
unfolding Value.new
life-sends_example = life-sends wired wired_laws 2 (Value.new 8 7) 7 blank refl

abort-poll_example :
    let ((a, h), s1) = aborter calm 8 no_handle world in
    let s2 = (abort calm a s1).1 in
    let me : ValueRequest ℕ = record waiting { handle = h } in
    (s2.world
      ≡ calm.send_abort 5
          (calm.send_request
            (record { id = 8; payload = Payload.abort })
            ResultSender.abort
            (calm.oneshot world.world).1).1)
    × (Value.poll calm me s2 ≡ (
      (ready (Result.err Error.aborted), record me { request = none; receiver = none }),
      (drop_taken calm waiting.receiver (is_aborted calm (some 5) s2).1).1,
    ))
abort-poll_example = abort-poll calm laws (record waiting { handle = no_handle }) world refl

abbrev clone : Aborter
clone = record { id = 8; cell = 0 }

abbrev waiting_stream : StreamRequest ℕ
waiting_stream = record {
  id = 8;
  request = none;
  result_receiver = some 1;
  values_receiver = some 2;
  handle = handle 4;
}

abbrev opened : Poll (Result Stream ℕ) × StreamRequest ℕ
opened = (Stream.poll calm (Stream.new 8 7) world).0

stream-poll-ignores_error_example :
    (Stream.poll calm waiting_stream world).0.0
    ≡ ready (Result.ok (record { id = 8; receiver = some 2; handle = handle 4 }))
stream-poll-ignores_error_example =
    stream-poll-ignores_error calm waiting_stream 1 world (Result.err Error.timeout) refl refl refl
      refl

-- The abort has arrived, and no item has.
abbrev items : Stream
items = record { id = 8; receiver = some 2; handle = handle 3 }

abbrev first_aborter : Aborter
first_aborter = record { id = 8; cell = 1 }

abbrev with_aborter : StreamRequest ℕ
with_aborter = record (Stream.new 8 7) {
  handle = record { aborter = some first_aborter; abort_receiver = some 5 };
}

abbrev started : Store World
started = record {
  world = record { next = 6; log = []; aborts = 3 ∷ [] };
  cells = some 3 ∷ some 5 ∷ [];
}

abbrev its_stream : Stream
its_stream = record { id = 8; receiver = some 7; handle = with_aborter.handle }

stream-abort-ends_example :
    let t' = (abort calm first_aborter started).1 in
    let (given, after) = (Items.poll_next calm its_stream t').0 in
    (Items.aborter_of calm its_stream started ≡ ((first_aborter, its_stream), started))
    × ((x : ℕ) → no_item ≡ ready (some x) → (given ≡ ready (some x)) × (after ≡ its_stream))
    × (no_item ≡ pending → (given ≡ ready none) × (Items.is_terminated after ≡ true))
unfolding program
stream-abort-ends_example =
    stream-abort-ends calm laws (Stream.new 8 7) with_aborter first_aborter world started started
      started its_stream 5 7 refl refl refl refl refl refl tt

polled_once_example :
    (polled.1.request ≡ none)
    × ((r : Result ℕ ℕ)
        → polled.0 ≡ ready r
        → (Value.is_terminated polled.1 ≡ true)
          × ((t : Store World) → Value.drop calm polled.1 t ≡ (tt, t)))
    × (opened.1.request ≡ none)
    × ((r : Result Stream ℕ)
        → opened.0 ≡ ready r
        → (Stream.is_terminated opened.1 ≡ true)
          × ((t : Store World) → Stream.drop calm opened.1 t ≡ (tt, t)))
unfolding program
polled_once_example = polled_once calm world fresh (Stream.new 8 7)
