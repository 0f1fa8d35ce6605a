-- ===== src/Base/Loops.antt =====
-- Counted loops: `for (k = i; k < i + n; k++) s = body k s`, on the rounds left.
use Prim.Native.Nat.{ℕ, zero, suc, ◌+◌, ◌<◌}
use mathlib.Core.Path.{◌≡◌}
use native.Mathlib.Omega.{arith}

unfoldable pub for_range {ℓ} : {S : Type ℓ} → ℕ → ℕ → (ℕ → S → S) → S → S
for_range zero at step state = state
for_range (suc left) at step state = for_range left (at + 1) step (step at state)

-- What every round keeps holds at the end, `last`, which is a variable, since `at + 0` is stuck.
pub for_range_inv {ℓ κ} :
    {S : Type ℓ} (Inv : ℕ → S → Type κ) (step : ℕ → S → S) (left at last : ℕ) (state : S)
    → ((k : ℕ) (t : S) → k < last → Inv k t → Inv (k + 1) (step k t))
    → at + left ≡ last
    → Inv at state
    → Inv last (for_range left at step state)
unfolding for_range
for_range_inv Inv step zero at last state keep ends start =
    let done : at ≡ last = omega arith in rw (← done) start
for_range_inv Inv step (suc left) at last state keep ends start =
    for_range_inv Inv step left (at + 1) last (step at state) keep (omega arith)
      (keep at state (omega arith) start)
