-- ===== src/Base/Ints.antt =====
-- Go's signed integers where a constructor's argument may be negative. `negsuc n` is -(n + 1).
use Prim.Native.Nat.{ℕ, zero, suc, ◌<◌, ◌%◌, ◌^◌}
use native.Mathlib.Omega.{arith}
use native.Mathlib.Nat.{mod-eq_of_lt, mod-eq-sub-mod}
use Prim.Native.Nat.{◌+◌, ◌-◌, ◌≤◌}
use mathlib.Core.Path.{◌≡◌, ap, refl, ◌∙◌}
use mathlib.Core.Bool.{Bool, true, false}
use mathlib.Core.Logic.{◌↔◌, inl, inr}
use tempest.Base.Classes.{Eq}
use tempest.Base.Tests.{◌==◌, if◌then◌else◌, ltb, ltb→lt, Bool-cases}

pub data ℤ : Type 0 where
  pos : ℕ → ℤ
  negsuc : ℕ → ℤ

-- `if n <= 0 { n = d }`: the value kept is positive when `d` is.
abbrev pub positive_or : ℕ → ℤ → ℕ
positive_or d (pos zero) = d
positive_or d (pos (suc n)) = suc n
positive_or d (negsuc n) = d

pub positive_or_pos : (d : ℕ) (n : ℤ) → 0 < d → 0 < positive_or d n
positive_or_pos d (pos zero) h = h
positive_or_pos d (pos (suc n)) h = omega arith
positive_or_pos d (negsuc n) h = h

-- uint64
abbrev pub u64 : ℕ → ℕ
u64 n = n % 2 ^ 64

-- An index below twice the capacity, brought back onto the circle.
pub wrap_lem : (a c : ℕ) → a < c + c → a % c ≡ (if ltb a c then a else a - c)
wrap_lem a c h = elim (Bool-cases (ltb a c)) [
  | inl below ↦ rw below (mod-eq_of_lt (ltb→lt a c below))
  | inr above ↦
      let past : c ≤ a = ground arith in rw above (mod-eq-sub-mod past ∙ mod-eq_of_lt (omega arith))
]

-- `n++` and `n > 0`.
abbrev pub succ : ℤ → ℤ
succ (pos n) = pos (suc n)
succ (negsuc zero) = pos zero
succ (negsuc (suc n)) = negsuc n

abbrev pub is_positive : ℤ → Bool
is_positive (pos zero) = false
is_positive (pos (suc n)) = true
is_positive (negsuc n) = false

-- `a > b`.
abbrev pub exceeds : ℤ → ℤ → Bool
exceeds (pos a) (pos b) = ltb b a
exceeds (pos a) (negsuc b) = true
exceeds (negsuc a) (pos b) = false
exceeds (negsuc a) (negsuc b) = ltb a b

-- `t.Add(d)`; a time before the origin is brought to the origin.
abbrev pub add_duration : ℕ → ℤ → ℕ
add_duration t (pos n) = t + n
add_duration t (negsuc n) = t - suc n

abbrev pub int_beq : ℤ → ℤ → Bool
int_beq (pos a) (pos b) = a == b
int_beq (pos a) (negsuc b) = false
int_beq (negsuc a) (pos b) = false
int_beq (negsuc a) (negsuc b) = a == b

pub int_beq_iff : (a b : ℤ) → (int_beq a b ≡ true) ↔ (a ≡ b)
int_beq_iff (pos a) (pos b) = (λ h. ap pos (ground arith), λ p. ground (arith, p))
int_beq_iff (pos a) (negsuc b) = (λ h. ground arith, λ p. ground (arith, p))
int_beq_iff (negsuc a) (pos b) = (λ h. ground arith, λ p. ground (arith, p))
int_beq_iff (negsuc a) (negsuc b) = (λ h. ap negsuc (ground arith), λ p. ground (arith, p))

instance abbrev pub int_eq : Eq ℤ
int_eq = record { beq = int_beq; beq_iff = int_beq_iff }

pub exceeds_asym : (a b : ℤ) → exceeds a b ≡ true → exceeds b a ≡ false
exceeds_asym (pos a) (pos b) h = ground arith
exceeds_asym (pos a) (negsuc b) h = refl
exceeds_asym (negsuc a) (pos b) h = ground arith
exceeds_asym (negsuc a) (negsuc b) h = ground arith

pub exceeds_total : (a b : ℤ) → exceeds a b ≡ false → exceeds b a ≡ false → a ≡ b
exceeds_total (pos a) (pos b) h g = ap pos (ground arith)
exceeds_total (pos a) (negsuc b) h g = ground arith
exceeds_total (negsuc a) (pos b) h g = ground arith
exceeds_total (negsuc a) (negsuc b) h g = ap negsuc (ground arith)

pub exceeds_trans : (a b c : ℤ) → exceeds a b ≡ true → exceeds b c ≡ true → exceeds a c ≡ true
exceeds_trans (pos a) (pos b) (pos c) h g = ground arith
exceeds_trans (pos a) (pos b) (negsuc c) h g = refl
exceeds_trans (pos a) (negsuc b) (pos c) h g = ground arith
exceeds_trans (pos a) (negsuc b) (negsuc c) h g = refl
exceeds_trans (negsuc a) (pos b) (pos c) h g = ground arith
exceeds_trans (negsuc a) (pos b) (negsuc c) h g = ground arith
exceeds_trans (negsuc a) (negsuc b) (pos c) h g = ground arith
exceeds_trans (negsuc a) (negsuc b) (negsuc c) h g = ground arith
