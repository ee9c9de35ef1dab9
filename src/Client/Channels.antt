-- ===== src/Client/Channels.antt =====
-- What the request futures of zzrpc/src/consumer use of the `futures` channels, as a parameter: the
-- operations act on a world that is not looked into. Beside it stands the store of the cells
-- `Arc<Mutex<Option<oneshot::Sender<()>>>>` that clones of an aborter share. A computation takes
-- the store and returns its result with the new store.
use zzrpc.Prelude.{ℕ, ◌≡◌, Bool, Option, none, some, List, [], ◌∷◌, ◌++◌, get_elem?, set, length}
use zzrpc.Rpc.Timeout.{Poll, ready}
use zzrpc.Message.{Request, Result, ResultSender}

-- `none` of a polled oneshot receiver is `Canceled`; `none` of a polled stream is its end.
pub record Channels (R T E : Type 0) : Type 1 where
  pub World : Type 0
  -- `oneshot::channel()` and `mpsc::unbounded()`: the number of a new channel
  pub oneshot : World → ℕ × World
  pub unbounded : World → ℕ × World
  -- `unbounded_send` on the request channel of the method: whether it succeeds
  pub send_request : Request R → ResultSender → World → Bool × World
  -- `poll_unpin` of a receiver of a value, of the opening of a stream, and of an abort
  pub poll_result : ℕ → World → Poll (Option (Result T E)) × World
  pub poll_open : ℕ → World → Poll (Option (Result (Unit {0}) E)) × World
  pub poll_abort : ℕ → World → Poll (Option (Unit {0})) × World
  -- `poll_next_unpin` of the receiver of the items
  pub poll_item : ℕ → World → Poll (Option T) × World
  -- `send(())` on an abort channel
  pub send_abort : ℕ → World → World
  -- the drop of a receiver
  pub drop_receiver : ℕ → World → World

-- Documented for `oneshot`: a value sent while both ends live is what the next poll gives, and what
-- other channels do does not take it away.
pub record ChannelLaws {R T E : Type 0} (c : Channels R T E) : Type 1 where
  -- Both ends of an abort channel live, and nothing was sent.
  pub IsOpen : ℕ → c.World → Type 0
  -- Its value was sent, and not yet received.
  pub IsSent : ℕ → c.World → Type 0
  pub oneshot-IsOpen : (w : c.World) → IsOpen (c.oneshot w).0 (c.oneshot w).1
  pub send_request-IsOpen :
      (ch : ℕ) (m : Request R) (r : ResultSender) (w : c.World)
      → IsOpen ch w
      → IsOpen ch (c.send_request m r w).1
  pub send_abort-IsSent : (ch : ℕ) (w : c.World) → IsOpen ch w → IsSent ch (c.send_abort ch w)
  pub poll_item-IsSent :
      (ch items : ℕ) (w : c.World) → IsSent ch w → IsSent ch (c.poll_item items w).1
  pub poll-sent : (ch : ℕ) (w : c.World) → IsSent ch w → (c.poll_abort ch w).0 ≡ ready (some tt)

pub record Store (W : Type 0) : Type 0 where
  pub world : W
  pub cells : List (Option ℕ)

abbrev pub Io : Type 0 → Type 0 → Type 0
Io W A = Store W → A × Store W

infixl 5 ◌>>=◌ ◌>>◌
abbrev pub ◌>>=◌ : {W A B : Type 0} → Io W A → (A → Io W B) → Io W B
◌>>=◌ m f s = let (a, s') = m s in f a s'

abbrev pub ◌>>◌ : {W B : Type 0} → Io W (Unit {0}) → Io W B → Io W B
m >> k = m >>= λ _. k

abbrev pub return : {W A : Type 0} → A → Io W A
return a s = (a, s)

-- A channel operation, in the store.
abbrev pub call : {W A : Type 0} → (W → A × W) → Io W A
call f s = let (a, w) = f s.world in (a, record s { world = w })

abbrev pub tell : {W : Type 0} → (W → W) → Io W (Unit {0})
tell f s = (tt, record s { world = f s.world })

abbrev pub new_cell : {W : Type 0} → ℕ → Io W ℕ
new_cell sender s = (length s.cells, record s { cells = s.cells ++ some sender ∷ [] })

abbrev pub flat : Option (Option ℕ) → Option ℕ
flat none = none
flat (some o) = o

-- `lock().unwrap()` and `Option::take`
abbrev pub take_cell : {W : Type 0} → ℕ → Io W (Option ℕ)
take_cell i s = (flat (get_elem? s.cells i), record s { cells = set s.cells i none })

module _ {R T E : Type 0} (c : Channels R T E) where
  -- `Option::take` of a receiver, which is dropped.
  abbrev pub drop_taken : Option ℕ → Io c.World (Unit {0})
  drop_taken none = return tt
  drop_taken (some ch) = tell (c.drop_receiver ch)

  abbrev pub arrived : Poll (Option (Unit {0})) → Bool
  arrived (ready (some u)) = Bool.true
  arrived _ = Bool.false

  -- Whether the abort receiver is there, and has its value.
  abbrev pub is_aborted : Option ℕ → Io c.World Bool
  is_aborted none = return Bool.false
  is_aborted (some ch) = do p ← call (c.poll_abort ch); return (arrived p)
