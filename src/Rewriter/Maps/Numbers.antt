-- ===== src/Rewriter/Maps/Numbers.antt =====
-- zpoline_rewriter/src/maps.rs: the numbers of a line against the value of their digits.
use zpoline_rs.Prelude.{
  ℕ, ◌+◌, ◌-◌, ◌*◌, ◌^◌, ◌≤◌, ◌<◌, ◌≡◌, refl, false, List, [], ◌∷◌, some, arith, ltb, ◌==◌, All,
  if◌then◌else◌,
}
use zpoline_rs.Rewriter.Maps.{to_digit, digits_from, from_str_radix}

-- The lower-case character of a digit.
abbrev pub digit_char : ℕ → ℕ
digit_char d = if ltb d 10 then b'0' + d else b'a' + (d - 10)

abbrev pub digits_text : List ℕ → List ℕ
digits_text [] = []
digits_text (d ∷ ds) = digit_char d ∷ digits_text ds

-- The value of digits behind a number.
unfoldable pub value_from : ℕ → ℕ → List ℕ → ℕ
value_from radix n [] = n
value_from radix n (d ∷ ds) = value_from radix (n * radix + d) ds

module _ (radix : ℕ) (small : radix ≤ 16) (mul_le : (n : ℕ) → n ≤ n * radix) where
  value_from_le : (n : ℕ) (ds : List ℕ) → n ≤ value_from radix n ds
  unfolding value_from
  value_from_le n [] = omega arith
  value_from_le n (d ∷ ds) = omega (arith, mul_le n, value_from_le (n * radix + d) ds)

  to_digit_lem : (d : ℕ) → d < radix → to_digit radix (digit_char d) ≡ some d
  to_digit_lem d h = ground arith

  digits_from_lem :
      (n : ℕ) (ds : List ℕ)
      → All (λ d. d < radix) ds
      → value_from radix n ds < 2 ^ 64
      → digits_from radix n (digits_text ds) ≡ some (value_from radix n ds)
  unfolding digits_from value_from
  digits_from_lem n [] h k = refl
  digits_from_lem n (d ∷ ds) (h, hs) k =
      let le = value_from_le (n * radix + d) ds in
      rw (to_digit_lem d h) (ground (arith, le, digits_from_lem (n * radix + d) ds hs k))

  pub from_str_radix_lem :
      (d : ℕ) (ds : List ℕ)
      → All (λ d. d < radix) (d ∷ ds)
      → value_from radix 0 (d ∷ ds) < 2 ^ 64
      → from_str_radix radix (digits_text (d ∷ ds)) ≡ some (value_from radix 0 (d ∷ ds))
  from_str_radix_lem d ds h k = rw (no_sign d) (digits_from_lem 0 (d ∷ ds) h k)
    where
      no_sign : (d : ℕ) → (digit_char d == b'+') ≡ false
      no_sign d = ground arith
