-- ===== src/Tests/Drain.antt =====
-- A stream that is read to its end.
use zzrpc.Prelude.{ℕ, ◌≡◌, refl, true, false, arith, Option, none, some, List, [], ◌∷◌}
use zzrpc.Rpc.Timeout.{Poll, ready, pending}
use zzrpc.Client.Channels.{Channels, Store}
use zzrpc.Client.Stream.Items
use zzrpc.Client.Stream.Items.{Stream}
use zzrpc.Client.Stream.Drain.{ItemLaws, drain, drain-terminates}

-- A channel whose senders are gone, with the items that are left.
abbrev next_item : List ℕ → Poll (Option ℕ) × List ℕ
next_item [] = (ready none, [])
next_item (x ∷ xs) = (ready (some x), xs)

abbrev closed_channel : Channels ℕ ℕ ℕ
closed_channel = record {
  World = List ℕ;
  oneshot = λ w. (5, w);
  unbounded = λ w. (5, w);
  send_request = λ m r w. (false, w);
  poll_result = λ ch w. (pending, w);
  poll_open = λ ch w. (pending, w);
  poll_abort = λ ch w. (pending, w);
  poll_item = λ ch w. next_item w;
  send_abort = λ ch w. w;
  drop_receiver = λ ch w. w;
}

next_item_lem :
    (x : ℕ) (xs w : List ℕ)
    → w ≡ x ∷ xs
    → ((next_item w).0 ≡ ready (some x)) × ((next_item w).1 ≡ xs)
next_item_lem x xs w e = rw e (refl, refl)

last_item_lem : (w : List ℕ) → w ≡ [] → (next_item w).0 ≡ ready none
last_item_lem w e = rw e refl

abbrev item_laws : ItemLaws closed_channel
item_laws = record {
  Holds = λ ch xs w. w ≡ xs;
  poll_item-some = λ ch x xs w h. next_item_lem x xs w h;
  poll_item-none = λ ch w h. last_item_lem w h;
}

abbrev stream : Stream
stream = record {
  id = 8;
  receiver = some 2;
  handle = record { aborter = none; abort_receiver = some 3 };
}

abbrev two_items : Store (List ℕ)
two_items = record { world = 1 ∷ 2 ∷ []; cells = [] }

drain-terminates_example :
    ((drain closed_channel 3 stream two_items).0.0 ≡ 1 ∷ 2 ∷ [])
    × (Items.is_terminated (drain closed_channel 3 stream two_items).0.1 ≡ true)
drain-terminates_example =
    drain-terminates closed_channel item_laws (1 ∷ 2 ∷ []) 3 stream two_items 2 refl refl
      (omega arith)
