-- ===== src/Base/Loops.antt =====
-- The loops of the source that are not over a sequence: those that a test ends, and those over a
-- range of indices.
use Prim.Native.Nat.{ℕ, zero, suc, ◌+◌, ◌<◌}
use mathlib.Core.Path.{◌≡◌, refl}
use mathlib.Core.Bool.{Bool, true, false}
use native.Mathlib.Omega.{arith}

-- `count` rounds, with the indices from `first` on
abbrev pub for_range {ℓ} : {S : Type ℓ} (count first : ℕ) (body : ℕ → S → S) (state : S) → S
for_range zero first body state = state
for_range (suc count) first body state = for_range count (first + 1) body (body first state)

-- what each round keeps, where the index stays below a bound
pub for_range_inv {ℓ κ} :
    {S : Type ℓ} (Kept : S → Type κ) (body : ℕ → S → S) (bound : ℕ)
    → ((index : ℕ) (state : S) → index < bound → Kept state → Kept (body index state))
    → (count first : ℕ) (state : S) → first + count < bound + 1
    → Kept state
    → Kept (for_range count first body state)
for_range_inv Kept body bound round zero first state fits kept = kept
for_range_inv Kept body bound round (suc count) first state fits kept =
    let next = round first state (omega arith) kept in
    for_range_inv Kept body bound round count (first + 1) (body first state) (omega arith) next

module _ {ℓ} {S : Type ℓ} (test : S → Bool) (body : S → S) where
  -- while (test(state)) state = body(state), for so many rounds at most
  unfoldable pub while : ℕ → S → S
  while zero state = state
  while (suc rounds) state = elim (test state) [ false ↦ state | true ↦ while rounds (body state) ]

  -- a round keeps what holds, and leaves fewer rounds to do
  abbrev pub IsRound {κ} : (S → Type κ) → (S → ℕ) → Type (ℓ ⊔ κ)
  IsRound Kept left =
      (state : S)
      → Kept state
      → test state ≡ true
      → Kept (body state) × (left (body state) < left state)

  -- the rounds are enough: the loop is left by its test, with what its rounds keep
  pub while_inv {κ} :
      (Kept : S → Type κ) (left : S → ℕ) (round : IsRound Kept left) (rounds : ℕ) (state : S)
      → Kept state
      → left state < rounds
      → (test (while rounds state) ≡ false) × Kept (while rounds state)
  unfolding while
  while_inv Kept left round zero state kept few = absurd (omega arith)
  while_inv Kept left round (suc rounds) state kept few = tested (test state) refl (λ e.
      let next = round state kept e in
      while_inv Kept left round rounds (body state) next.0 (omega (arith, next.1)))
    where
      tested :
          (b : Bool)
          → test state ≡ b
          → (test state ≡ true
              → (test (while rounds (body state)) ≡ false) × Kept (while rounds (body state)))
          → let out : S = elim b [ false ↦ state | true ↦ while rounds (body state) ] in
            (test out ≡ false) × Kept out
      tested false e rest = (e, kept)
      tested true e rest = rest e
