-- ===== src/Run.antt =====
-- What a call of the program can do besides returning: panic, as Rust does on an index or a slice
-- out of range, or not end. Loops with no bound in the source run on fuel.

pub data Run {ℓ} (A : Type ℓ) : Type ℓ where
  done : A → Run A
  panic : Run A
  out_of_fuel : Run A
