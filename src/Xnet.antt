-- ===== src/Xnet.antt =====
-- xnet: the writers that spread log entries over the instances of a service.
pub mod Writer
pub mod Provider
pub mod Tcp
pub mod Udp
mod Tests
use mesos_executor.Common.{ℕ, Option, Str}

-- What Write and Send return: the number of bytes, and the error or none.
pub record Written : Type 0 where
  pub bytes : ℕ
  pub error : Option Str

-- The interface Sender, on a state `S` that stands for all that a call can change.
pub record Sender (S : Type 0) : Type 0 where
  pub send : Str → Str → S → S × Written
  pub release : S → S × Option Str

-- What is said of a state and kept by both calls.
pub record Keeps {S : Type 0} (sender : Sender S) (P : S → Type 0) : Type 0 where
  pub keeps_send : (address payload : Str) (s : S) → P s → P (sender.send address payload s).0
  pub keeps_release : (s : S) → P s → P (sender.release s).0
