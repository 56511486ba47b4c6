-- ===== src/Base/Int.antt =====
-- Go's signed integers: ℤ over the native numbers, under the library's names. `negsuc n` is -(n + 1).
use Prim.Native.Nat.{ℕ, suc, ◌+◌, ◌-◌, ◌≤◌}
use mathlib.Core.Bool.{Bool}
use kubepeep.Base.Tests.{ltb, leb, ◌==◌, if◌then◌else◌}

pub data ℤ : Type 0 where
  pos : ℕ → ℤ
  negsuc : ℕ → ℤ

-- The two numbers whose difference an integer is.
abbrev pub pos_part : ℤ → ℕ
pos_part (pos n) = n
pos_part (negsuc n) = 0

abbrev pub neg_part : ℤ → ℕ
neg_part (pos n) = 0
neg_part (negsuc n) = suc n

abbrev pub sub_ℕ : ℕ → ℕ → ℤ
sub_ℕ m n = if leb n m then pos (m - n) else negsuc (n - m - 1)

abbrev pub ltb_ℤ : ℤ → ℤ → Bool
ltb_ℤ i j = ltb (pos_part i + neg_part j) (pos_part j + neg_part i)

infix 50 ◌≤ℤ◌
abbrev pub ◌≤ℤ◌ : ℤ → ℤ → Type 0
i ≤ℤ j = pos_part i + neg_part j ≤ pos_part j + neg_part i

infixl 60 ◌-ℤ◌
abbrev pub ◌-ℤ◌ : ℤ → ℤ → ℤ
i -ℤ j = sub_ℕ (pos_part i + neg_part j) (pos_part j + neg_part i)

infixl 60 ◌+ℤ◌
abbrev pub ◌+ℤ◌ : ℤ → ℤ → ℤ
i +ℤ j = sub_ℕ (pos_part i + pos_part j) (neg_part i + neg_part j)

infix 50 ◌==ℤ◌
abbrev pub ◌==ℤ◌ : ℤ → ℤ → Bool
i ==ℤ j = pos_part i + neg_part j == pos_part j + neg_part i
