-- ===== src/Consumer/Changes.antt =====
-- What a response or a taken request changes: the table of its method, or nothing.
use zzrpc.Prelude.{ℕ, ◌≡◌, refl, inl, inr, some, Option-cases, List, get_elem?, get_elem?-set_self}
use zzrpc.Message.{Response}
use zzrpc.Consumer.State.{Effect, Slot, State, Change, put_change}
use zzrpc.Consumer.Handle.{respond, method, respond_slot}
use zzrpc.Consumer.Take.{request_slot}
use zzrpc.Consumer.Loop.{Taken, take_request}
use zzrpc.Consumer.Routing.{stream_in, stream_at}

module _ (R T E : Type 0) where
  -- What a response changes, on the slot of its method or not at all.
  pub respond-ind :
      (P : State → Type 0) (s : State) (id : ℕ) (r : Response T)
      → P s
      → ((slot : Slot)
          → get_elem? s.slots (method r) ≡ some slot
          → P (put_change s (method r) (respond_slot {R = R} {E = E} s.pending slot id r)).0)
      → P (respond {R = R} {T = T} {E = E} s id r).0
  unfolding respond
  respond-ind P s id r same changed = elim (Option-cases (get_elem? s.slots (method r))) [
    | inl e ↦ rw (e, respond) same
    | inr (slot, e) ↦ rw (e, respond) (changed slot e)
  ]

  pub put_change-at :
      (s : State) (k : ℕ) (slot : Slot) (c : Change R T E) (j : ℕ)
      → get_elem? s.slots k ≡ some slot
      → stream_at (put_change s k c).0 k j ≡ stream_in (some c.slot) j
  unfolding put_change
  put_change-at s k slot c j e = rw (get_elem?-set_self s.slots k slot c.slot e) refl

  module _ (S : Type 0) where
    -- What taking a request changes, on the slot of its method or not at all.
    pub take_request-ind :
        (P : State → Type 0) (cb : S) (effects : List (Effect R T E)) (s : State) (k : ℕ)
        (taken : Taken R E)
        → P s
        → ((slot : Slot)
            → get_elem? s.slots k ≡ some slot
            → P
                (put_change s k
                  (request_slot {R = R} {T = T} s.pending slot taken.message.id taken.result_sender
                    taken.failure).0).0)
        → P (take_request cb effects s k taken).state
    unfolding take_request
    take_request-ind P cb effects s k taken same changed =
        elim (Option-cases (get_elem? s.slots k)) [
          | inl e ↦ rw (e, take_request) same
          | inr (slot, e) ↦ rw (e, take_request) (changed slot e)
        ]
