-- ===== src/Api/Int.antt =====
-- Go's signed integers where the source reads a sign. `negsuc n` is -(n + 1).
use kova.Base.{ℕ}

pub data ℤ : Type 0 where
  pos : ℕ → ℤ
  negsuc : ℕ → ℤ
