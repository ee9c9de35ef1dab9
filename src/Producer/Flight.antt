-- ===== src/Producer/Flight.antt =====
-- Requests in flight at the producer: their aborts and their end.
use zzrpc.Prelude.{ℕ, ◌≡◌, refl, none, some, [], ◌∷◌, ◌++◌}
use zzrpc.Prelude.Table.{lookup, lookup-insert_self, remove-insert, remove_absent}
use zzrpc.Message.{Request, Payload}
use zzrpc.Producer.Loop.{
  spawn, send_abort, drop_aborter, State, Received, received, removed, Round, Settings, reset_if,
  go_on, handle_message, step,
}

module _ {R T E S : Type 0} (c : Settings E S) where
  -- A round in which a message arrives, with the channel that is made if it is a request.
  abbrev pub got : S → State → Request R → ℕ → Round R T S
  got cb s m channel = step c cb s (received (some (Received.ok m channel)))

  -- A round in which the task of a request says that it has ended.
  abbrev pub ended : S → State → ℕ → Round R T S
  ended cb s id = step c cb s (removed (some id))

  -- A round that brings a request with a fresh id starts it, with the receiver of a new abort
  -- channel. In the state after it: a round that brings an abort with its id sends on that channel,
  -- and a round in which its task says that it has ended drops the sender; both leave the
  -- state as it was before the request. After the end, a round that brings the abort does nothing
  -- but to reset the timeout.
  pub request_aborted :
      (cb : S) (s : State) (id channel other : ℕ) (r : R)
      → lookup id s.aborters ≡ none
      → let abort : Request R = record { id = id; payload = Payload.abort } in
        let request : Request R = record { id = id; payload = Payload.request r } in
        let begun = got cb s request channel in
        (begun.effects ≡ reset_if c.has_timeout ++ spawn id r channel ∷ [])
        × (got cb begun.state abort other
            ≡ go_on cb (reset_if c.has_timeout ++ send_abort channel ∷ []) s)
        × (ended cb begun.state id ≡ go_on cb (drop_aborter channel ∷ []) s)
        × (got cb (ended cb begun.state id).state abort other
            ≡ go_on cb (reset_if c.has_timeout ++ []) s)
  unfolding step handle_message
  request_aborted cb s id channel other r fresh =
      let found = lookup-insert_self id channel s.aborters in
      let back = remove-insert id channel s.aborters fresh in
      (
        rw fresh refl,
        rw (found, back) refl,
        rw (found, back) refl,
        rw (back, fresh, remove_absent id s.aborters fresh) refl,
      )
