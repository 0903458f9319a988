-- ===== src/Net/Destination/Digits.antt =====
-- The decimal digits of a candidate's index (crates/meshelf-net/src/destination.rs), read back.
use meshelf.Base.{
  ℕ, zero, suc, ◌+◌, ◌-◌, ◌*◌, ◌/◌, ◌%◌, ◌<◌, ◌≡◌, refl, inl, inr, [], ◌∷◌, ◌++◌, arith, ltb,
  Bool-cases,
}
use meshelf.Base.Text.{Text}
use meshelf.Core.Model.{u64_max}
use meshelf.Net.Destination.{digits}

-- the number that digits spell, read from the left
unfoldable value_from : ℕ → Text → ℕ
value_from read [] = read
value_from read (c ∷ s) = value_from (read * 10 + (c - b'0')) s

-- the numbers with at most so many digits are below this
unfoldable power_of_ten : ℕ → ℕ
power_of_ten zero = 1
power_of_ten (suc n) = 10 * power_of_ten n

value_from-append :
    (read : ℕ) (s t : Text) → value_from read (s ++ t) ≡ value_from (value_from read s) t
unfolding value_from
value_from-append read [] t = refl
value_from-append read (c ∷ s) t = value_from-append (read * 10 + (c - b'0')) s t

value_from-digits : (fuel n : ℕ) → n < power_of_ten fuel → value_from 0 (digits fuel n) ≡ n
unfolding value_from digits power_of_ten
value_from-digits zero n h = omega arith
value_from-digits (suc fuel) n h = elim (Bool-cases (ltb n 10)) [
  | inl e ↦ rw e (omega arith)
  | inr e ↦
      let before = value_from-digits fuel (n / 10) (omega arith) in
      rw (e, value_from-append 0 (digits fuel (n / 10)) ((b'0' + n % 10) ∷ []), before)
        (omega arith)
]

-- Twenty digits spell a usize as it is.
value_from-digits_usize : (n : ℕ) → n < u64_max + 1 → value_from 0 (digits 20 n) ≡ n
unfolding power_of_ten
value_from-digits_usize n h = value_from-digits 20 n (omega arith)
