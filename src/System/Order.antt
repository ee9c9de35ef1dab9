-- ===== src/System/Order.antt =====
-- The items of a stream arrive in the order in which its task gives them.
use mathlib.Core.List.{append_assoc, append-nil, Sublistᴰ}
use mathlib.Core.List.Sublistᴰ as Sub
use zzrpc.Prelude.{
  ℕ, ◌≡◌, refl, sym, ap, subst, ◌∙◌, Bool, some, ◌&&◌, ◌==◌, if◌then◌else◌, List, [], ◌∷◌, ◌++◌,
  total, arith,
}
use zzrpc.Message.{Response, StreamResponse, Message}
use zzrpc.Consumer.Loop
use zzrpc.Producer.Loop as Main
use zzrpc.Producer.Task.{value_task, stream_task, stream_loop}
use zzrpc.Producer.Requests
use zzrpc.System.{
  System, Step, call, poll, abort, take, receive, other, produce, produce_other, finish,
  open_stream, serve, end_stream, stop, forward, lose, Reach, start, later,
}
use zzrpc.System.Counts.{of_message}
use zzrpc.System.Log.{Log, step_log, log_of}
use zzrpc.System.Tasks.{round-unheard}

module _ (j k : ℕ) {T : Type 0} where
  -- The item in a response to the request `j` of the method `k`.
  abbrev pub item_of : Message T → List T
  item_of (Message.response id (Response.stream i (StreamResponse.item x))) =
      if (id == j) && (i == k) then x ∷ [] else []
  item_of _ = []

  abbrev pub items_of : List (Message T) → List T
  items_of [] = []
  items_of (m ∷ ms) = item_of m ++ items_of ms

  -- What the task of that request gave, the earliest first.
  abbrev pub in_order : List (ℕ × ℕ × T) → List T
  in_order [] = []
  in_order ((id, i, x) ∷ given) = in_order given ++ (if (id == j) && (i == k) then x ∷ [] else [])

  items_of-append : (xs ys : List (Message T)) → items_of (xs ++ ys) ≡ items_of xs ++ items_of ys
  items_of-append [] ys = refl
  items_of-append (m ∷ xs) ys =
      ap (λ l. item_of m ++ l) (items_of-append xs ys)
      ∙ sym (append_assoc (item_of m) (items_of xs) (items_of ys))

  -- Messages about no request have no items.
  unheard-items : (ms : List (Message T)) → total (of_message j) ms ≡ 0 → items_of ms ≡ []
  unheard-items [] h = refl
  unheard-items (Message.response id (Response.stream i (StreamResponse.item x)) ∷ ms) h =
      ground (arith, unheard-items ms (omega arith))
  unheard-items (Message.response id (Response.stream i StreamResponse.open_) ∷ ms) h =
      unheard-items ms (omega arith)
  unheard-items (Message.response id (Response.stream i StreamResponse.closed) ∷ ms) h =
      unheard-items ms (omega arith)
  unheard-items (Message.response id (Response.value i x) ∷ ms) h = unheard-items ms (omega arith)
  unheard-items (Message.aborted ∷ ms) h = unheard-items ms (omega arith)
  unheard-items (Message.shutdown ∷ ms) h = unheard-items ms (omega arith)

  -- The items that were heard, are on their way, and wait to be sent.
  abbrev line : List (Message T) → List (Message T) → List (Message T) → List T
  line heard coming waiting = items_of heard ++ (items_of coming ++ items_of waiting)

  line-said :
      (heard coming waiting more : List (Message T))
      → line heard coming (waiting ++ more) ≡ line heard coming waiting ++ items_of more
  line-said heard coming waiting more = simp (append_assoc, items_of-append)

  line-heard :
      (heard coming waiting : List (Message T)) (m : Message T)
      → line (heard ++ m ∷ []) coming waiting ≡ line heard (m ∷ coming) waiting
  line-heard heard coming waiting m = simp (append_assoc, append-nil, items_of-append)

  line-sent :
      (heard coming waiting : List (Message T)) (m : Message T)
      → line heard (coming ++ m ∷ []) waiting ≡ line heard coming (m ∷ waiting)
  line-sent heard coming waiting m = simp (append_assoc, append-nil, items_of-append)

same_items : {A : Type 0} (xs : List A) → Sublistᴰ (xs ++ []) xs
same_items xs = subst (λ ys. Sublistᴰ (xs ++ []) ys) (append-nil xs) (Sub.refl (xs ++ []))

prefix : {A : Type 0} (xs ys : List A) → Sublistᴰ xs (xs ++ ys)
prefix xs ys =
    subst (λ zs. Sublistᴰ zs (xs ++ ys)) (append-nil xs)
      (Sub.append (Sub.refl xs) (Sub.nil-sublist ys))

module _ {R T E F S P : Type 0} (kinds : List Bool) (method_of : R → ℕ) (c : Loop.Settings E S)
    (d : Main.Settings F P) where
  -- The messages that the consumer has received, with the one of a step.
  abbrev pub hear :
      {s t : System R T S P} → Step kinds method_of c d s t → List (Message T) → List (Message T)
  hear (receive m ms e goes) heard = heard ++ m ∷ []
  hear _ heard = heard

  abbrev InOrder : ℕ → ℕ → Log R T → List (Message T) → System R T S P → Type 0
  InOrder j k l heard s = Sublistᴰ (line j k heard s.to_consumer s.replies) (in_order j k l.given)

  -- What a step says goes to the end of the line.
  said-InOrder :
      (j k : ℕ) (l : Log R T) (heard coming waiting more : List (Message T)) (given : List T)
      → Sublistᴰ (line j k heard coming waiting) (in_order j k l.given)
      → Sublistᴰ (items_of j k more) given
      → Sublistᴰ (line j k heard coming (waiting ++ more)) (in_order j k l.given ++ given)
  said-InOrder j k l heard coming waiting more given p q =
      subst (λ xs. Sublistᴰ xs (in_order j k l.given ++ given))
        (sym (line-said j k heard coming waiting more)) (Sub.append p q)

  quiet-InOrder :
      (j k : ℕ) (l : Log R T) (heard coming waiting more : List (Message T))
      → Sublistᴰ (line j k heard coming waiting) (in_order j k l.given)
      → items_of j k more ≡ []
      → Sublistᴰ (line j k heard coming (waiting ++ more)) (in_order j k l.given)
  quiet-InOrder j k l heard coming waiting more p e =
      subst (λ xs. Sublistᴰ xs (in_order j k l.given))
        (sym (line-said j k heard coming waiting more ∙ rw e (append-nil _))) p

  Step-InOrder :
      (j k : ℕ) (l : Log R T) (heard : List (Message T)) {s t : System R T S P}
      → (x : Step kinds method_of c d s t) → InOrder j k l heard s
      → InOrder j k (step_log x l) (hear x heard) t
  unfolding value_task stream_task stream_loop
  Step-InOrder j k l heard {s} (receive m ms e goes) p =
      subst (λ xs. Sublistᴰ xs (in_order j k l.given)) (sym (line-heard j k heard ms s.replies m))
        (subst (λ xs. Sublistᴰ (line j k heard xs s.replies) (in_order j k l.given)) e p)
  Step-InOrder j k l heard {s} (produce q m ms ch on e) p =
      quiet-InOrder j k l heard s.to_consumer s.replies _ p (
        unheard-items j k _ (
          round-unheard j R T F P (Requests.asked m.id m.payload)
            (Main.step d s.its_callback q (Main.received (some (Main.Received.ok m ch))))
            (Requests.step-Tells R T F P d s.its_callback q
              (Main.received (some (Main.Received.ok m ch))))))
  Step-InOrder j k l heard {s} (produce_other q event on h) p =
      quiet-InOrder j k l heard s.to_consumer s.replies _ p (
        unheard-items j k _ (
          round-unheard j R T F P (Requests.requests_of event) (Main.step d s.its_callback q event)
            (Requests.step-Tells R T F P d s.its_callback q event)))
  Step-InOrder j k l heard {s} (finish xs ys id i x e at) p =
      said-InOrder j k l heard s.to_consumer s.replies _ _ p (Sub.nil-sublist _)
  Step-InOrder j k l heard {s} (open_stream xs ys id i e at) p =
      quiet-InOrder j k l heard s.to_consumer s.replies _ p refl
  Step-InOrder j k l heard {s} (serve xs ys id i x e) p =
      said-InOrder j k l heard s.to_consumer s.replies _ _ p
        (same_items (if (id == j) && (i == k) then x ∷ [] else []))
  Step-InOrder j k l heard {s} (end_stream xs ys id i e) p =
      quiet-InOrder j k l heard s.to_consumer s.replies _ p refl
  Step-InOrder j k l heard {s} (forward m ms e) p =
      subst (λ xs. Sublistᴰ xs (in_order j k l.given))
        (sym (line-sent j k heard s.to_consumer ms m))
        (subst (λ xs. Sublistᴰ (line j k heard s.to_consumer xs) (in_order j k l.given)) e p)
  Step-InOrder j k l heard {s} (lose m ms e h) p =
      Sub.trans
        (Sub.append (Sub.refl (items_of j k heard)) (
          Sub.append (Sub.refl (items_of j k s.to_consumer))
            (Sub.append (Sub.nil-sublist (item_of j k m)) (Sub.refl (items_of j k ms)))))
        (subst (λ xs. Sublistᴰ (line j k heard s.to_consumer xs) (in_order j k l.given)) e p)
  Step-InOrder j k l heard {s} (call r small) p = p
  Step-InOrder j k l heard {s} (poll n xs ys id r sender b e at fits) p = p
  Step-InOrder j k l heard {s} (abort i id b at old) p = p
  Step-InOrder j k l heard {s} (take xs ys x failure e first goes) p = p
  Step-InOrder j k l heard {s} (other event h goes) p = p
  Step-InOrder j k l heard {s} (stop xs ys task e) p = p

  module _ {cb : S} {its_cb : P} where
    abbrev pub heard_of :
        {s : System R T S P} → Reach kinds method_of c d cb its_cb s → List (Message T)
    heard_of start = []
    heard_of (later r x) = hear x (heard_of r)

    Reach-InOrder :
        {s : System R T S P} (j k : ℕ) (r : Reach kinds method_of c d cb its_cb s)
        → InOrder j k (log_of r) (heard_of r) s
    Reach-InOrder j k start = Sublistᴰ.slnil
    Reach-InOrder j k (later r x) = Step-InOrder j k (log_of r) (heard_of r) x (Reach-InOrder j k r)

    -- In any run of the whole program, below 2^64 calls and over a transport that keeps the order
    -- and may lose messages but no `Open`: the items of a request of a method that the
    -- consumer has received are some of those that the task of that request gave, in the same
    -- order, and each at most once.
    pub items_in_order :
        {s : System R T S P} (j k : ℕ) (r : Reach kinds method_of c d cb its_cb s)
        → Sublistᴰ (items_of j k (heard_of r)) (in_order j k (log_of r).given)
    items_in_order {s} j k r =
        Sub.trans
          (prefix (items_of j k (heard_of r))
            (items_of j k s.to_consumer ++ items_of j k s.replies))
          (Reach-InOrder j k r)
