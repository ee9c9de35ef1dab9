-- ===== src/Consumer/Conservation.antt =====
-- No sender is lost and none is used twice in a run of the consumer's loop.
use zzrpc.Prelude.{
  ℕ, ◌+◌, ◌≡◌, refl, ap, ◌≢◌, one, none, List, [], ◌∷◌, arith, total, total-append, weight, Bool,
  true, false,
}
use zzrpc.Prelude.Table.{weigh}
use zzrpc.Consumer.State.{new, State}
use zzrpc.Consumer.Handle.{drop_slots}
use zzrpc.Consumer.Take.{Flow, continue_}
use zzrpc.Consumer.Loop.{Event, Round, Settings, step, conclude, run, Outcome}
use zzrpc.Consumer.Mass.{mass, spent, total-drop_slots}
use zzrpc.Consumer.Fair.{brought_by, spent_all, total_brought, step-Fair}

module _ (u v : ℕ → ℕ) (R T E S : Type 0) where
  abbrev Conserves : Outcome R T E → ℕ → Type 0
  Conserves o came =
      weight (mass u v) o.left + spent_all u v o.effects + total_brought u v o.rest ≡ came

  conclude-Conserves :
      (flow : Flow) (round : Round R T E S) (events : List (Event R T E)) (later : Outcome R T E)
      → Conserves later (mass u v round.state + total_brought u v events)
      → Conserves
          (conclude flow round events later)
          (mass u v round.state + spent_all u v round.effects + total_brought u v events)
  unfolding conclude
  conclude-Conserves continue_ round events later h =
      omega (arith, total-append (spent u v) round.effects later.effects)
  conclude-Conserves flow round events later h = omega (
    arith,
    total-append (spent u v) round.effects (drop_slots round.state.slots),
    total-drop_slots u v R T E round.state.slots,
  )

  pub run-Conserves :
      (c : Settings E S) (cb : S) (s : State) (events : List (Event R T E))
      → Conserves (run c cb s events) (mass u v s + total_brought u v events)
  unfolding run
  run-Conserves c cb s [] = omega arith
  run-Conserves c cb s (event ∷ events) =
      let round = step c cb s event in
      let later = run c round.callback round.state events in
      omega (
        arith,
        step-Fair u v R T E S c cb s event,
        conclude-Conserves round.flow round events later
            (run-Conserves c round.callback round.state events),
      )

-- For any weights `u` of oneshot senders and `v` of item senders: what the loop still holds, what
-- its effects used up and what its unread events bring weigh as much as what it held and all events
-- bring. At `one h` this counts the sender `h`; once the loop is left it holds nothing, so every
-- sender that it took is used up exactly once: answered, or dropped.
pub run-mass :
    (u v : ℕ → ℕ) {R T E S : Type 0} (c : Settings E S) (cb : S) (s : State)
    (events : List (Event R T E))
    → let o = run c cb s events in
      weight (mass u v) o.left + total (spent u v) o.effects + total (brought_by u v) o.rest
      ≡ mass u v s + total (brought_by u v) events
run-mass u v {R} {T} {E} {S} c cb s events = run-Conserves u v R T E S c cb s events

-- A loop that was left holds no state.
conclude-left :
    {R T E S : Type 0} (flow : Flow) (round : Round R T E S) (events : List (Event R T E))
    (later : Outcome R T E)
    → (later.flow ≢ continue_ → later.left ≡ none)
    → (conclude flow round events later).flow ≢ continue_
    → (conclude flow round events later).left ≡ none
unfolding conclude
conclude-left continue_ round events later h ne = h ne
conclude-left flow round events later h ne = refl

pub run-left :
    {R T E S : Type 0} (c : Settings E S) (cb : S) (s : State) (events : List (Event R T E))
    → (run c cb s events).flow ≢ continue_
    → (run c cb s events).left ≡ none
unfolding run
run-left c cb s [] ne = absurd (ne refl)
run-left c cb s (event ∷ events) ne =
    let round = step c cb s event in
    conclude-left round.flow round events (run c round.callback round.state events)
      (run-left c round.callback round.state events) ne

pub mass-new : (u v : ℕ → ℕ) (kinds : List Bool) → mass u v (new kinds) ≡ 0
unfolding new weigh
mass-new u v [] = refl
mass-new u v (true ∷ kinds) = omega (arith, mass-new u v kinds)
mass-new u v (false ∷ kinds) = omega (arith, mass-new u v kinds)

-- Once the loop of a new consumer is left, every sender `h` has been used up (answered, failed or
-- dropped) as often as the events that were read brought it: of the oneshot senders in the first
-- part, of the senders of items in the second. So a sender that is brought once, and by an event
-- that is read, is used up exactly once.
pub exactly_once :
    {R T E S : Type 0} (c : Settings E S) (cb : S) (kinds : List Bool) (events : List (Event R T E))
    (h : ℕ)
    → (run c cb (new kinds) events).flow ≢ continue_
    → let o = run c cb (new kinds) events in
      let nil : ℕ → ℕ = λ _. 0 in
      (total (spent (one h) nil) o.effects + total (brought_by (one h) nil) o.rest
        ≡ total (brought_by (one h) nil) events)
      × (total (spent nil (one h)) o.effects + total (brought_by nil (one h)) o.rest
          ≡ total (brought_by nil (one h)) events)
exactly_once c cb kinds events h ne = (settled (one h) (λ _. 0), settled (λ _. 0) (one h))
  where
    settled :
        (u v : ℕ → ℕ)
        → let o = run c cb (new kinds) events in
          total (spent u v) o.effects + total (brought_by u v) o.rest
          ≡ total (brought_by u v) events
    settled u v = omega (
      arith,
      run-mass u v c cb (new kinds) events,
      mass-new u v kinds,
      ap (weight (mass u v)) (run-left c cb (new kinds) events ne),
    )
