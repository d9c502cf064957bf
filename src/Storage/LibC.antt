-- ===== src/Storage/LibC.antt =====
-- The functions of the C library, of libcrypt and of the clock that src/server/storage.c calls.
use mo_t.Base.{ℕ, Bool, Option, Text}

pub record LibC : Type 0 where
  -- crypt(3) of a password and a salt; NULL is `none`.
  pub crypt : Text → Text → Option Text
  -- The n-th value of rand(3).
  pub rand : ℕ → ℕ
  -- Hour and minute of localtime(3).
  pub local_time : ℕ → ℕ × ℕ
  -- Whether realloc(3) of this size succeeds.
  pub reallocs : ℕ → Bool
