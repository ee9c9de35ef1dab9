-- ===== src/Consumer/Streams.antt =====
-- A stream request through the loop of the consumer: opened, its items in order, closed.
use mathlib.Core.List.{append-nil}
use zzrpc.Prelude.{
  ℕ, ◌<◌, ◌≡◌, ap, ◌∙◌, none, some, List, [], ◌∷◌, ◌++◌, arith, get_elem?, set, set-set, set_same,
  get_elem?-set_self, usize_mod, usize_inc,
}
use zzrpc.Prelude.Table.{Table, lookup, insert, lookup-insert, remove-insert, insert-insert}
use zzrpc.Message.{Request, Result, ResultSender, Response, StreamResponse, Message}
use zzrpc.Consumer.State.{
  Effect, send_message, send_open, send_item, drop_values, Entry, streams, State, put_change,
}
use zzrpc.Consumer.Handle.{respond, respond_slot, handle_message}
use zzrpc.Consumer.Take.{request_slot, replaced_entry}
use zzrpc.Consumer.Loop.{Event, requested, Settings, Outcome, reset_if, run, step, take_request}
use zzrpc.Consumer.Answers.{message_event, preceded, run-goes, goes}

-- The state `s` with an entry for `id`, and with `pending` given anew.
abbrev with_entry : State → ℕ → Table Entry → ℕ → ℕ → Entry → State
with_entry s k t p id entry = record {
  pending = p;
  slots = set s.slots k (streams (insert id entry t));
}

abbrev waiting : ℕ → ℕ → Entry
waiting sender items = record { result = some sender; items = items }

abbrev opened : ℕ → Entry
opened items = record { result = none; items = items }

module _ (R T E S : Type 0) (s : State) (k : ℕ) (t : Table Entry) (id : ℕ) where
  module _ (found : get_elem? s.slots k ≡ some (streams t)) (fresh : lookup id t ≡ none) where
    -- A response that finds the entry and replaces the table.
    respond-entry :
        (p p' : ℕ) (entry : Entry) (t' : Table Entry) (effects : List (Effect R T E))
        (r : StreamResponse T)
        → respond_slot p (streams (insert id entry t)) id (Response.stream k r)
          ≡ record { pending = p'; slot = streams t'; effects = effects }
        → respond (with_entry s k t p id entry) id (Response.stream k r)
          ≡ (record { pending = p'; slots = set s.slots k (streams t') }, effects)
    unfolding respond put_change
    respond-entry p p' entry t' effects r e =
        let slot' = streams (insert id entry t) in
        rw (get_elem?-set_self s.slots k (streams t) slot' found, respond, e)
          (rw (set-set s.slots k slot' (streams t')))

    respond-open :
        (sender items : ℕ)
        → s.pending < usize_mod
        → respond {R = R} {T = T} {E = E}
            (with_entry s k t (usize_inc s.pending) id (waiting sender items))
            id
            (Response.stream k StreamResponse.open_)
          ≡ (with_entry s k t s.pending id (opened items), send_open sender (Result.ok tt) ∷ [])
    unfolding respond_slot
    respond-open sender items h = respond-entry _ s.pending _ _ _ StreamResponse.open_ (
        ground (
          arith,
          lookup-insert id id (waiting sender items) t,
          insert-insert id (waiting sender items) (opened items) t,
        ))

    respond-item :
        (items : ℕ) (x : T)
        → respond {R = R} {E = E}
            (with_entry s k t s.pending id (opened items))
            id
            (Response.stream k (StreamResponse.item x))
          ≡ (with_entry s k t s.pending id (opened items), send_item items x ∷ [])
    unfolding respond_slot
    respond-item items x =
        respond-entry _ s.pending _ _ _ (StreamResponse.item x)
          (ground (arith, lookup-insert id id (opened items) t))

    respond-closed :
        (items : ℕ)
        → respond {R = R} {T = T} {E = E}
            (with_entry s k t s.pending id (opened items))
            id
            (Response.stream k StreamResponse.closed)
          ≡ (s, drop_values items ∷ [])
    unfolding respond_slot
    respond-closed items =
        respond-entry _ s.pending _ t (drop_values items ∷ []) StreamResponse.closed (
          ground
            (arith, lookup-insert id id (opened items) t, remove-insert id (opened items) t fresh))
        ∙ rw (set_same s.slots k (streams t) found)

-- The items of a stream and its end, as messages, before other events.
abbrev pub item_events : {R T E : Type 0} → ℕ → ℕ → List T → List (Event R T E) → List (Event R T E)
item_events id k [] events =
    message_event (Message.response id (Response.stream k StreamResponse.closed)) ∷ events
item_events id k (x ∷ xs) events =
    message_event (Message.response id (Response.stream k (StreamResponse.item x)))
    ∷ item_events id k xs events

module _ {R T E S : Type 0} (c : Settings E S) (cb : S) where
  step-respond :
      (s s' : State) (id : ℕ) (r : Response T) (effects : List (Effect R T E))
      → respond s id r ≡ (s', effects)
      → step c cb s (message_event (Message.response id r))
        ≡ goes cb s' (reset_if c.has_timeout ++ effects)
  unfolding step handle_message
  step-respond s s' id r effects e = rw e

  run-respond :
      (s s' : State) (id : ℕ) (r : Response T) (effects : List (Effect R T E))
      (events : List (Event R T E))
      → respond s id r ≡ (s', effects)
      → run c cb s (message_event (Message.response id r) ∷ events)
        ≡ preceded (reset_if c.has_timeout ++ effects) (run c cb s' events)
  run-respond s s' id r effects events e =
      run-goes c cb s s' _ _ events (step-respond s s' id r effects e)

  -- What follows for the items of a stream.
  abbrev pub with_items : ℕ → List T → Outcome R T E → Outcome R T E
  with_items items [] o = o
  with_items items (x ∷ xs) o =
      preceded (reset_if c.has_timeout ++ send_item items x ∷ []) (with_items items xs o)

  run-items :
      (s : State) (k : ℕ) (t : Table Entry) (id items : ℕ) (xs : List T)
      (events : List (Event R T E))
      → get_elem? s.slots k ≡ some (streams t)
      → lookup id t ≡ none
      → run c cb (with_entry s k t s.pending id (opened items)) (item_events id k xs events)
        ≡ with_items items xs
            (preceded (reset_if c.has_timeout ++ drop_values items ∷ []) (run c cb s events))
  run-items s k t id items [] events found fresh =
      run-respond _ s id _ _ events (respond-closed R T E S s k t id found fresh items)
  run-items s k t id items (x ∷ xs) events found fresh =
      run-respond _ _ id _ _ _ (respond-item R T E S s k t id found fresh items x)
      ∙ ap (preceded (reset_if c.has_timeout ++ send_item items x ∷ []))
          (run-items s k t id items xs events found fresh)

  step-stream_request :
      (s : State) (k : ℕ) (t : Table Entry) (m : Request R) (sender items : ℕ)
      → get_elem? s.slots k ≡ some (streams t)
      → lookup m.id t ≡ none
      → step {T = T} c cb s (
          requested k (
            some (record {
              message = m;
              result_sender = ResultSender.stream sender items;
              failure = none;
            })))
        ≡ goes cb
            (with_entry s k t (usize_inc s.pending) m.id (waiting sender items))
            (reset_if c.has_timeout ++ send_message m ∷ [])
  unfolding step request_slot
  step-stream_request s k t m sender items found fresh =
      rw (found, take_request) (rw (fresh, replaced_entry) (simp append-nil))

abbrev pub stream_request : {R T E : Type 0} → ℕ → Request R → (sender items : ℕ) → Event R T E
stream_request k m sender items = requested k (
    some (record { message = m; result_sender = ResultSender.stream sender items; failure = none }))

-- A stream request with a fresh id that is sent, opened, served and closed: the message goes to the
-- transport, the sender of the request learns that the stream is open, the items go to the sender
-- of the items in order, that sender is dropped, and the loop is where it was before the request.
pub stream_served :
    {R T E S : Type 0} (c : Settings E S) (cb : S) (s : State) (k : ℕ) (t : Table Entry)
    (m : Request R) (sender items : ℕ) (xs : List T) (events : List (Event R T E))
    → get_elem? s.slots k ≡ some (streams t)
    → lookup m.id t ≡ none
    → s.pending < usize_mod
    → run c cb s (
        stream_request k m sender items
        ∷ message_event (Message.response m.id (Response.stream k StreamResponse.open_))
        ∷ item_events m.id k xs events)
      ≡ preceded (reset_if c.has_timeout ++ send_message m ∷ []) (
          preceded (reset_if c.has_timeout ++ send_open sender (Result.ok tt) ∷ []) (
            with_items c cb items xs
              (preceded (reset_if c.has_timeout ++ drop_values items ∷ []) (run c cb s events))))
stream_served {R} {T} {E} {S} c cb s k t m sender items xs events found fresh small =
    run-goes c cb s _ _ _ _ (step-stream_request c cb s k t m sender items found fresh)
    ∙ ap (preceded _) (
        run-respond c cb _ _ m.id _ _ _
          (respond-open R T E S s k t m.id found fresh sender items small)
        ∙ ap (preceded _) (run-items c cb s k t m.id items xs events found fresh))
