-- ===== src/Message.antt =====
-- The messages of zzrpc/src/consumer/mod.rs and zzrpc/src/producer.rs. `R` stands for the
-- generated `Request` enum and `T` for the values of all methods. A channel end of the `futures`
-- crate is the number of its channel.
use zzrpc.Prelude.{ℕ}
use zzrpc.Rpc.{Error}

pub data Payload (R : Type 0) : Type 0 where
  request : R → Payload R
  abort : Payload R

-- `consumer::Message`
pub record Request (R : Type 0) : Type 0 where
  pub id : ℕ
  pub payload : Payload R

-- `consumer::Result`
pub data Result (T E : Type 0) : Type 0 where
  ok : T → Result T E
  err : Error E → Result T E

-- `consumer::ResultSender`
pub data ResultSender : Type 0 where
  value : (sender : ℕ) → ResultSender
  stream : (result_sender values_sender : ℕ) → ResultSender
  abort : ResultSender

-- `producer::StreamResponse`
pub data StreamResponse (T : Type 0) : Type 0 where
  open_ closed : StreamResponse T
  item : T → StreamResponse T

-- The generated `Response` enum: the variant of the method that stands `k`-th in the trait.
pub data Response (T : Type 0) : Type 0 where
  value : (k : ℕ) → T → Response T
  stream : (k : ℕ) → StreamResponse T → Response T

-- `producer::Message`
pub data Message (T : Type 0) : Type 0 where
  response : (id : ℕ) → Response T → Message T
  aborted shutdown : Message T
