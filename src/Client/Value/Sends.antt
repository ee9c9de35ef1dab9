-- ===== src/Client/Value/Sends.antt =====
-- zzrpc/src/consumer/value.rs: all that a `ValueRequest` sends on the channel of its method.
use mathlib.Core.List.{append-nil}
use zzrpc.Prelude.{
  ℕ, ◌≡◌, refl, sym, ap, subst, ◌∙◌, inl, inr, Bool, true, false, Bool-cases, Option, none, some,
  List, [], ◌∷◌, ◌++◌,
}
use zzrpc.Rpc.Timeout.{Poll, ready, pending}
use zzrpc.Message.{Request, Payload, Result, ResultSender}
use zzrpc.Client.Channels.{Channels, Store, Io, ◌>>=◌, return, call, drop_taken, is_aborted}
use zzrpc.Client.Value.{
  ValueRequest, is_terminated, give_up, first_result, after_send, send_first, next_result, resume,
  poll, drop,
}
use zzrpc.Client.Value.Laws.{poll-finishes}

-- What was handed to `unbounded_send` on the channel of a method, in order. No other operation of
-- the channels hands anything to it.
pub record SendLaws {R T E : Type 0} (c : Channels R T E) : Type 0 where
  pub sent : c.World → List (Request R × ResultSender)
  pub oneshot-sent : (w : c.World) → sent (c.oneshot w).1 ≡ sent w
  pub send_request-sent :
      (m : Request R) (r : ResultSender) (w : c.World)
      → sent (c.send_request m r w).1 ≡ sent w ++ (m, r) ∷ []
  pub poll_result-sent : (ch : ℕ) (w : c.World) → sent (c.poll_result ch w).1 ≡ sent w
  pub poll_abort-sent : (ch : ℕ) (w : c.World) → sent (c.poll_abort ch w).1 ≡ sent w
  pub drop_receiver-sent : (ch : ℕ) (w : c.World) → sent (c.drop_receiver ch w) ≡ sent w

module _ {R T E : Type 0} (c : Channels R T E) (laws : SendLaws c) where
  abbrev pub log : Store c.World → List (Request R × ResultSender)
  log s = laws.sent s.world

  -- The future has its id, and has sent nothing.
  abbrev Quiet :
      ValueRequest R → Store c.World → (Poll (Result T E) × ValueRequest R) × Store c.World → Type 0
  Quiet me s ((p, me'), s') = (me'.id ≡ me.id) × (log s' ≡ log s)

  drop_taken-log : (o : Option ℕ) (s : Store c.World) → log (drop_taken c o s).1 ≡ log s
  drop_taken-log none s = refl
  drop_taken-log (some ch) s = laws.drop_receiver-sent ch s.world

  is_aborted-log : (o : Option ℕ) (s : Store c.World) → log (is_aborted c o s).1 ≡ log s
  is_aborted-log none s = refl
  is_aborted-log (some ch) s = laws.poll_abort-sent ch s.world

  give_up-Quiet : (me : ValueRequest R) (s : Store c.World) → Quiet me s (give_up c me s)
  unfolding give_up
  give_up-Quiet me s = (refl, drop_taken-log me.receiver s)

  first_result-Quiet :
      (me : ValueRequest R) (ch : ℕ) (p : Poll (Option (Result T E))) (s : Store c.World)
      → Quiet me s (first_result c me ch p s)
  unfolding first_result
  first_result-Quiet me ch (ready r) s =
      (refl, laws.drop_receiver-sent ch _ ∙ drop_taken-log me.receiver s)
  first_result-Quiet me ch pending s = (refl, drop_taken-log me.receiver s)

  after_send-Quiet :
      (me : ValueRequest R) (ch : ℕ) (b : Bool) (s : Store c.World)
      → Quiet me s (after_send c me ch b s)
  unfolding after_send
  after_send-Quiet me ch true s =
      let (same, quiet) =
        first_result-Quiet me ch (c.poll_result ch s.world).0 (call (c.poll_result ch) s).1 in
      (same, quiet ∙ laws.poll_result-sent ch s.world)
  after_send-Quiet me ch false s =
      (refl, laws.drop_receiver-sent ch _ ∙ drop_taken-log me.receiver s)

  next_result-Quiet :
      (me : ValueRequest R) (ch : ℕ) (p : Poll (Option (Result T E))) (s : Store c.World)
      → Quiet me s (next_result c me ch p s)
  unfolding next_result
  next_result-Quiet me ch (ready r) s = (refl, laws.drop_receiver-sent ch s.world)
  next_result-Quiet me ch pending s = (refl, refl)

  later-Quiet :
      (me : ValueRequest R) (request : Option R) (receiver : Option ℕ) (s : Store c.World)
      → request ≡ none
      → Quiet me s (resume c me request receiver s)
  unfolding resume
  later-Quiet me (some request) receiver s e = cc
  later-Quiet me none none s e = (refl, refl)
  later-Quiet me none (some ch) s e =
      let (same, quiet) =
        next_result-Quiet me ch (c.poll_result ch s.world).0 (call (c.poll_result ch) s).1 in
      (same, quiet ∙ laws.poll_result-sent ch s.world)

  poll-Quiet :
      (me : ValueRequest R) (s : Store c.World) → me.request ≡ none → Quiet me s (poll c me s)
  unfolding poll
  poll-Quiet me s e =
      let s' = (is_aborted c me.abort_receiver s).1 in
      elim (Bool-cases (is_aborted c me.abort_receiver s).0) [
        | inl a ↦
            let (same, quiet) = give_up-Quiet me s' in
            rw a (same, quiet ∙ is_aborted-log me.abort_receiver s)
        | inr a ↦
            let (same, quiet) = later-Quiet me me.request me.receiver s' e in
            rw a (same, quiet ∙ is_aborted-log me.abort_receiver s)
      ]

  -- The future after more polls.
  abbrev pub polls : ℕ → ValueRequest R → Io c.World (ValueRequest R)
  polls ℕ.zero me = return me
  polls (ℕ.suc n) me = do (p, me') ← poll c me; polls n me'

  -- What the first poll sends of a request, unless the abort has arrived.
  abbrev pub asked : Bool → ℕ → R → ℕ → List (Request R × ResultSender)
  asked true id request ch = []
  asked false id request ch =
      (record { id = id; payload = Payload.request request }, ResultSender.value ch) ∷ []

  -- What the drop sends.
  abbrev pub dropped : Bool → ℕ → List (Request R × ResultSender)
  dropped true id = []
  dropped false id = (record { id = id; payload = Payload.abort }, ResultSender.abort) ∷ []

  send_first-log :
      (me : ValueRequest R) (request : R) (s : Store c.World)
      → ((send_first c me request s).0.1.id ≡ me.id)
        × (log (send_first c me request s).1
            ≡ log s ++ asked false me.id request (c.oneshot s.world).0)
  unfolding send_first
  send_first-log me request s =
      let (ch, w) = c.oneshot s.world in
      let m : Request R = record { id = me.id; payload = Payload.request request } in
      let went = c.send_request m (ResultSender.value ch) w in
      let (same, quiet) = after_send-Quiet me ch went.0 (record s { world = went.1 }) in
      (
        same,
        quiet
            ∙ laws.send_request-sent m (ResultSender.value ch) w
            ∙ ap (λ l. l ++ (m, ResultSender.value ch) ∷ []) (laws.oneshot-sent s.world),
      )

  started-log :
      (me : ValueRequest R) (o : Option R) (request : R) (receiver : Option ℕ) (s : Store c.World)
      → o ≡ some request
      → ((resume c me o receiver s).0.1.id ≡ me.id)
        × (log (resume c me o receiver s).1
            ≡ log s ++ asked false me.id request (c.oneshot s.world).0)
  unfolding resume
  started-log me none request receiver s e = cc
  started-log me (some r) request receiver s e =
      let same : r ≡ request = cc in
      subst
        (λ x.
          ((send_first c me r s).0.1.id ≡ me.id)
          × (log (send_first c me r s).1 ≡ log s ++ asked false me.id x (c.oneshot s.world).0))
        same (send_first-log me r s)

  first-log :
      (me : ValueRequest R) (request : R) (s : Store c.World)
      → me.request ≡ some request
      → let (aborted, s') = is_aborted c me.abort_receiver s in
        ((poll c me s).0.1.id ≡ me.id)
        × (log (poll c me s).1 ≡ log s ++ asked aborted me.id request (c.oneshot s'.world).0)
  unfolding poll
  first-log me request s e =
      let s' = (is_aborted c me.abort_receiver s).1 in
      let before = is_aborted-log me.abort_receiver s in
      elim (Bool-cases (is_aborted c me.abort_receiver s).0) [
        | inl a ↦
            let (same, quiet) = give_up-Quiet me s' in
            rw a (same, quiet ∙ before ∙ sym (append-nil (log s)))
        | inr a ↦
            let (same, came) = started-log me me.request request me.receiver s' e in
            rw a
              (same, came ∙ ap (λ l. l ++ asked false me.id request (c.oneshot s'.world).0) before)
      ]

  polls-Quiet :
      (n : ℕ) (me : ValueRequest R) (s : Store c.World)
      → me.request ≡ none
      → ((polls n me s).0.id ≡ me.id) × (log (polls n me s).1 ≡ log s)
  polls-Quiet ℕ.zero me s e = (refl, refl)
  polls-Quiet (ℕ.suc n) me s e =
      let (same, quiet) = poll-Quiet me s e in
      let gone = (poll-finishes c me s).0 in
      let (same', quiet') = polls-Quiet n (poll c me s).0.1 (poll c me s).1 gone in
      (same' ∙ same, quiet' ∙ quiet)

  drop-log :
      (me : ValueRequest R) (s : Store c.World)
      → log (drop c me s).1 ≡ log s ++ dropped (is_terminated me) me.id
  unfolding drop
  drop-log me s = elim (Bool-cases (is_terminated me)) [
    | inl e ↦ rw e (sym (append-nil (log s)))
    | inr e ↦ rw e (laws.send_request-sent _ ResultSender.abort s.world)
  ]

  -- All that a value request sends in its life, of a first poll, any number of further polls with
  -- any answers, and its drop: the request, with its id and the sender of a new channel, once,
  -- unless the abort had arrived before the first poll; and then an abort with the same id, once,
  -- exactly if it is not terminated when it is dropped.
  pub life-sends :
      (n : ℕ) (me : ValueRequest R) (request : R) (s : Store c.World)
      → me.request ≡ some request
      → let (aborted, s') = is_aborted c me.abort_receiver s in
        let (me', t) = polls (ℕ.suc n) me s in
        log (drop c me' t).1
        ≡ log s
          ++ asked aborted me.id request (c.oneshot s'.world).0
          ++ dropped (is_terminated me') me.id
  life-sends n me request s e =
      let (same, came) = first-log me request s e in
      let gone = (poll-finishes c me s).0 in
      let (same', quiet) = polls-Quiet n (poll c me s).0.1 (poll c me s).1 gone in
      let (me', t) = polls (ℕ.suc n) me s in
      drop-log me' t
      ∙ ap (λ id. log t ++ dropped (is_terminated me') id) (same' ∙ same)
      ∙ ap (λ l. l ++ dropped (is_terminated me') me.id) (quiet ∙ came)
