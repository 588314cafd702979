-- ===== src/Base/Status.antt =====
-- The error codes of status.h, and the results of functions that return one of them.
-- A C function returns the negated code. `PEACHOS_ALL_OK` is `ok`.
pub data Errno : Type 0 where
  eio einvarg enomem ebadpath efsnotus erdonly eunimp eistkn einformat : Errno

pub data Result {ℓ} (A : Type ℓ) : Type ℓ where
  ok : A → Result A
  err : Errno → Result A
