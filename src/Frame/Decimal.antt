-- ===== src/Frame/Decimal.antt =====
-- A reader of decimals that meets what is asked of the crate atoi, for the examples.
use ik2203_distributed_coord.Prelude.{
  ℕ, zero, suc, ◌+◌, ◌-◌, ◌*◌, ◌/◌, ◌%◌, ◌^◌, ◌<◌, ◌≡◌, sym, ◌∙◌, ap, arith, List, [], ◌∷◌, ◌++◌,
  Option, some, ltb, ltb→le, Bool-cases, inl, inr, control,
}
use mathlib.Core.List.{append_assoc, append-nil}
use ik2203_distributed_coord.Frame.Text.{to_string, digits}
use ik2203_distributed_coord.Frame.Written.{ReadsDecimals}

unfoldable pub scan : List ℕ → ℕ → ℕ
scan [] n = n
scan (a ∷ s) n = scan s (n * 10 + (a - 48))

unfoldable pub decimal : List ℕ → Option ℕ
unfolding scan
decimal s = some (scan s 0)

pow_suc : (k : ℕ) → 10 ^ suc k ≡ 10 * 10 ^ k
pow_suc k = omega arith

scan-digits : (k n : ℕ) (s : List ℕ) → n < 10 ^ k → scan (digits k n ++ s) 0 ≡ scan s n
unfolding scan digits control
scan-digits zero n s h = ap (scan s) (omega (arith, h))
scan-digits (suc k) n s h = elim (Bool-cases (ltb n 10)) [
  | inl e ↦ rw e (ap (scan s) (omega arith))
  | inr e ↦
      rw
        (
          e,
          append_assoc (digits k (n / 10)) ((48 + n % 10) ∷ []) s,
          scan-digits k (n / 10) ((48 + n % 10) ∷ s) (omega (arith, h, pow_suc k, ltb→le n 10 e)),
        )
        (ap (scan s) (omega arith))
]

pub decimal-ReadsDecimals : ReadsDecimals decimal
unfolding decimal to_string
decimal-ReadsDecimals n h =
    ap some
      (ap (λ l. scan l 0) (sym (append-nil (digits 20 n))) ∙ scan-digits 20 n [] (omega (arith, h)))
