-- ===== src/Prelude/Tables.antt =====
-- Facts on bytes, checked at every value.
use Prim.Native.Nat.{ℕ, zero, suc, ◌<◌}
use mathlib.Core.Path.{◌≡◌}
use mathlib.Core.Bool.{Bool, true, ◌&&◌}
use mathlib.Core.List.{List, [], ◌∷◌}
use native.Mathlib.Omega.{arith}

-- The test holds at 0, …, `bound - 1`.
unfoldable pub passes_below : (ℕ → Bool) → ℕ → Bool
passes_below test zero = true
passes_below test (suc last) = passes_below test last && test last

pub at-passes_below :
    (test : ℕ → Bool) (bound b : ℕ) → b < bound → passes_below test bound ≡ true → test b ≡ true
unfolding passes_below
at-passes_below test zero b h table = absurd (omega arith)
at-passes_below test (suc last) b h table =
    let earlier : b < last → test b ≡ true =
      λ below. at-passes_below test last b below (ground arith) in
    ground arith

-- Each element meets `P`.
abbrev pub All {ℓ κ} : {A : Type ℓ} → (A → Type κ) → List A → Type κ
All P [] = Unit
All P (x ∷ xs) = P x × All P xs
