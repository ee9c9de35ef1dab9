-- ===== src/Tests/Answers.antt =====
-- A value and an item of a stream on their way from the tasks to the callers.
use mathlib.Core.List.{Memᴰ, Sublistᴰ}
use zzrpc.Prelude.{ℕ, ◌≡◌, refl, none, some, true, false, [], ◌∷◌, arith}
use zzrpc.Prelude.Table.{lookup, insert, remove}
use zzrpc.Message.{Payload, Result, ResultSender, Response, StreamResponse, Message}
use zzrpc.Consumer.State.{
  send_result, send_item, new, put_change, respond_value, respond_stream, open_entry,
}
use zzrpc.Consumer.Handle.{handle_message, respond, respond_slot}
use zzrpc.Consumer.Take.{request_slot, add_value, add_stream}
use zzrpc.Consumer.Loop
use zzrpc.Consumer.Loop.{take_request}
use zzrpc.Producer.Loop as Main
use zzrpc.Producer.Task.{value_task, stream_task, stream_loop}
use zzrpc.Client.Sending.{value-first_sent, stream-first_sent}
use zzrpc.System.{
  asks, call, poll, take, receive, produce, finish, open_stream, serve, forward, start, later,
}
use zzrpc.System.Log.{log_of, effects_of}
use zzrpc.System.Answers.{value_origin, item_origin}
use zzrpc.System.Order.{items_of, in_order, heard_of, items_in_order}
use zzrpc.Tests.System.{Api, kinds, method_of, c, d, Run}

-- A value method is called, its task gives 42, and the consumer receives it.
unfoldable answered : (s : Api) × Run s
unfolding Loop.step take_request put_change request_slot add_value new lookup insert remove
    Main.step value_task handle_message respond respond_slot respond_value
answered = (
  _,
  later
      (later
        (later
          (later
            (later
              (later (later start (call 0 (omega arith))) (
                poll 5 [] [] 0 0 (ResultSender.value 5) false refl refl
                  (value-first_sent ℕ ℕ 0 0 5)))
              (take [] [] (asks 0 0 0 (ResultSender.value 5)) none refl refl refl))
            (produce Main.start (record { id = 0; payload = Payload.request 0 }) [] 9 refl refl))
          (finish [] [] 0 0 42 refl refl))
        (forward (Message.response 0 (Response.value 0 42)) [] refl))
      (receive (Message.response 0 (Response.value 0 42)) [] refl refl),
)

value_sent : Memᴰ (send_result 5 (Result.ok 42)) (effects_of answered.1)
unfolding answered
value_sent = Memᴰ.tail (Memᴰ.head refl)

value_origin_example :
    (id : ℕ) × (a : ℕ) × (lookup id (log_of answered.1).called ≡ some a)
    × (lookup id (log_of answered.1).senders ≡ some (ResultSender.value 5))
    × Memᴰ (id, method_of a, 42) (log_of answered.1).given
value_origin_example = value_origin kinds method_of c d answered.1 5 42 value_sent

-- A stream method is called and opened, its task gives 7, and the consumer receives it.
unfoldable streamed : (s : Api) × Run s
unfolding Loop.step take_request put_change request_slot add_stream new lookup insert Main.step
    stream_task stream_loop handle_message respond respond_slot respond_stream open_entry
streamed = (
  _,
  later
      (later
        (later
          (later
            (later
              (later
                (later
                  (later
                    (later (later start (call 1 (omega arith))) (
                      poll 5 [] [] 0 1 (ResultSender.stream 5 6) true refl refl
                        (stream-first_sent ℕ ℕ 0 1 5)))
                    (take [] [] (asks 1 0 1 (ResultSender.stream 5 6)) none refl refl refl))
                  (produce Main.start (record { id = 0; payload = Payload.request 1 }) [] 9 refl
                    refl))
                (open_stream [] [] 0 1 refl refl))
              (serve [] [] 0 1 7 refl))
            (forward (Message.response 0 (Response.stream 1 StreamResponse.open_)) _ refl))
          (forward (Message.response 0 (Response.stream 1 (StreamResponse.item 7))) [] refl))
        (receive (Message.response 0 (Response.stream 1 StreamResponse.open_)) _ refl refl))
      (receive (Message.response 0 (Response.stream 1 (StreamResponse.item 7))) [] refl refl),
)

item_sent : Memᴰ (send_item 6 7) (effects_of streamed.1)
unfolding streamed
item_sent = Memᴰ.tail (Memᴰ.tail (Memᴰ.head refl))

item_origin_example :
    (id : ℕ) × (a : ℕ) × (sender : ℕ) × (lookup id (log_of streamed.1).called ≡ some a)
    × (lookup id (log_of streamed.1).senders ≡ some (ResultSender.stream sender 6))
    × Memᴰ (id, method_of a, 7) (log_of streamed.1).given
item_origin_example = item_origin kinds method_of c d streamed.1 6 7 item_sent

streamed_heard : items_of 0 1 (heard_of kinds method_of c d streamed.1) ≡ 7 ∷ []
unfolding streamed
streamed_heard = refl

items_in_order_example :
    Sublistᴰ
      (items_of 0 1 (heard_of kinds method_of c d streamed.1))
      (in_order 0 1 (log_of streamed.1).given)
items_in_order_example = items_in_order kinds method_of c d 0 1 streamed.1
