-- ===== src/Tests/System.antt =====
-- The whole program on an api with a value method and a stream method.
use zzrpc.Prelude.{ℕ, ◌+◌, ◌≤◌, ◌≡◌, ◌⊎◌, ◌↔◌, refl, none, Bool, true, false, List, [], ◌∷◌, arith}
use zzrpc.Prelude.Table.{lookup, insert, weigh}
use zzrpc.Rpc.{ignore}
use zzrpc.Message.{Payload, ResultSender, Response, StreamResponse, Message}
use zzrpc.Consumer.State.{new, put_change, respond_stream, open_entry}
use zzrpc.Consumer.Handle.{handle_message, idle, respond, respond_slot}
use zzrpc.Consumer.Take.{continue_, request_slot, add_stream}
use zzrpc.Consumer.Loop
use zzrpc.Consumer.Loop.{take_request}
use zzrpc.Consumer.Pending.{outstanding}
use zzrpc.Producer.Loop as Main
use zzrpc.Producer.Task.{stream_task, stream_loop}
use zzrpc.Client.Sending.{stream-first_sent}
use zzrpc.System.{
  asks, taken, System, call, poll, take, receive, produce, open_stream, end_stream, forward, Reach,
  start, later,
}
use zzrpc.System.Counts.{early, live, served, heard, waits, first_said, Orderly}
use zzrpc.System.Sound.{one_place}
use zzrpc.System.Idle.{idle_in_system}
use zzrpc.System.Bounds.{untaken, pending_bounded}
use zzrpc.System.Panics.{take_goes_on}

abbrev pub Api : Type 0
Api = System ℕ ℕ (Unit {0}) (Unit {0})

abbrev pub kinds : List Bool
kinds = false ∷ true ∷ []

abbrev pub method_of : ℕ → ℕ
method_of r = r

abbrev pub c : Loop.Settings ℕ (Unit {0})
c = record { has_timeout = false; on_receive_error = λ s e. (ignore, s) }

abbrev pub d : Main.Settings ℕ (Unit {0})
d = record { has_timeout = false; on_receive_error = λ s e. (ignore, s) }

abbrev pub Run : Api → Type 0
Run = Reach kinds method_of c d tt tt

-- A stream is called, and the first poll of its future sends the request.
unfoldable asked : (s : Api) × Run s
asked = (
  _,
  later (later start (call 1 (omega arith)))
      (poll 5 [] [] 0 1 (ResultSender.stream 5 6) true refl refl (stream-first_sent ℕ ℕ 0 1 5)),
)

-- The consumer takes the request, and the producer reads it, opens the stream, and replies.
unfoldable opened : (s : Api) × Run s
unfolding asked Loop.step take_request put_change request_slot add_stream new lookup insert
    Main.step stream_task stream_loop
opened = (
  _,
  later
      (later
        (later
          (later asked.1 (take [] [] (asks 1 0 1 (ResultSender.stream 5 6)) none refl refl refl))
          (produce Main.start (record { id = 0; payload = Payload.request 1 }) [] 9 refl refl))
        (open_stream [] [] 0 1 refl refl))
      (forward (Message.response 0 (Response.stream 1 StreamResponse.open_)) [] refl),
)

-- The consumer hears that the stream is open; then the stream ends.
unfoldable closing : (s : Api) × Run s
unfolding opened handle_message respond respond_slot respond_stream open_entry
closing = (
  _,
  later
      (later
        (later opened.1
          (receive (Message.response 0 (Response.stream 1 StreamResponse.open_)) [] refl refl))
        (end_stream [] [] 0 1 refl))
      (forward (Message.response 0 (Response.stream 1 StreamResponse.closed)) [] refl),
)

opened_pending : opened.0.consumer.pending ≡ 1
unfolding opened
opened_pending = refl

closing_heard :
    closing.0.to_consumer ≡ Message.response 0 (Response.stream 1 StreamResponse.closed) ∷ []
unfolding closing
closing_heard = refl

idle_in_system_example :
    (closing.0.consumer.pending ≡ outstanding closing.0.consumer)
    × ((idle closing.0.consumer ≡ true) ↔ (outstanding closing.0.consumer ≡ 0))
unfolding closing weigh
idle_in_system_example = idle_in_system kinds method_of c d closing.1 (omega arith)

pending_bounded_example :
    (opened.0.consumer.pending + untaken opened.0 ≤ opened.0.next_id)
    × (opened.0.consumer.pending ≡ outstanding opened.0.consumer)
unfolding opened
pending_bounded_example = pending_bounded kinds method_of c d opened.1 (omega arith)

one_place_example :
    (early 0 closing.0 + live 0 closing.0 ≤ 1)
    × ((early 0 closing.0 ≡ 0) ⊎ (heard 0 closing.0 ≡ 0))
    × Orderly (waits 0 1 closing.0.consumer) (served 0 1 closing.0) (first_said 0 1 closing.0)
one_place_example = one_place kinds method_of c d 0 1 closing.1

take_goes_on_example :
    (Loop.step {R = ℕ} {T = ℕ} c tt asked.0.consumer
      (taken (asks 1 0 1 (ResultSender.stream 5 6)) none)).flow
    ≡ continue_
unfolding asked
take_goes_on_example =
    take_goes_on kinds method_of c d [] [] (asks 1 0 1 (ResultSender.stream 5 6)) none asked.1 refl
