-- ===== src/Frame/Terminates.antt =====
-- ddbb_libs/src/frame.rs: the fuel that `check` and `parse` need. Each nested call starts behind a byte
-- that was read.
use ik2203_distributed_coord.Prelude.{
  ℕ, zero, suc, ◌+◌, ◌≤◌, ◌<◌, arith, List, [], ◌∷◌, length, Option,
}
use ik2203_distributed_coord.Frame.{Frame, integer, null, simple, error}
use ik2203_distributed_coord.Frame.Cursor.{Parser, bind, get_u8}
use ik2203_distributed_coord.Frame.Parser.{
  text, skip_bulk, take_bulk, check_bulk, parse_bulk, check_as, check, parse_as, parse,
}
use ik2203_distributed_coord.Frame.Ends.{
  Ends, Ends-parsed, Ends-failed, Ends-panicked, Ends-le, Ends-if, Ends-test, Ends-bind,
  peek_u8-Ends, skip-Ends, get_line-Ends, get_decimal-Ends, check_times-Ends, parse_times-Ends,
  Shrinks, Shrinks-bind, Shrinks-if, Shrinks-pure,
}

skip_bulk-Shrinks : (len : ℕ) → Shrinks (skip_bulk len)
unfolding skip_bulk
skip_bulk-Shrinks len = Shrinks-if _ _ _ (skip-Ends (len + 2)) (λ c. Ends-panicked)

take_bulk-Shrinks : (len : ℕ) → Shrinks (take_bulk len)
unfolding take_bulk
take_bulk-Shrinks len =
    Shrinks-if _ _ _
      (λ c.
        Ends-test _ Ends-failed (Ends-bind _ (skip-Ends (len + 2) c) (λ _ rest l. Ends-parsed l)))
      (λ c. Ends-panicked)

text-Shrinks : (frame : List ℕ → Frame) (line : List ℕ) → Shrinks (text frame line)
text-Shrinks frame line = Shrinks-if _ _ _ (Shrinks-pure (frame line)) (λ c. Ends-failed)

module _ (atoi : List ℕ → Option ℕ) where
  check_bulk-Shrinks : Shrinks (check_bulk atoi)
  unfolding check_bulk
  check_bulk-Shrinks = Shrinks-bind _ _ peek_u8-Ends (λ b.
      Shrinks-if _ _ _ (skip-Ends 4)
        (Shrinks-bind _ _ (get_decimal-Ends atoi) (λ len. skip_bulk-Shrinks len)))

  parse_bulk-Shrinks : Shrinks (parse_bulk atoi)
  unfolding parse_bulk
  parse_bulk-Shrinks = Shrinks-bind _ _ peek_u8-Ends (λ b.
      Shrinks-if _ _ _
        (Shrinks-bind _ _ get_line-Ends
          (λ line. Shrinks-if _ _ _ (Shrinks-pure null) (λ c. Ends-failed)))
        (Shrinks-bind _ _ (get_decimal-Ends atoi) (λ len. take_bulk-Shrinks len)))

  check_as-Shrinks :
      (nested : Parser (Unit {0})) (tag k : ℕ) (c : List ℕ)
      → ((c' : List ℕ) → length c' ≤ k → Ends (length c') (nested c'))
      → length c ≤ k
      → Ends (length c) (check_as atoi nested tag c)
  unfolding check_as
  check_as-Shrinks nested tag k c h l =
      Ends-if _ _ _ (Shrinks-bind _ _ get_line-Ends (λ _. Shrinks-pure tt) c) (
        Ends-if _ _ _ (Shrinks-bind _ _ get_line-Ends (λ _. Shrinks-pure tt) c) (
          Ends-if _ _ _ (Shrinks-bind _ _ (get_decimal-Ends atoi) (λ _. Shrinks-pure tt) c) (
            Ends-if _ _ _ (check_bulk-Shrinks c) (
              Ends-if _ _ _
                (Ends-bind _ (get_decimal-Ends atoi c) (λ len rest m.
                  Ends-le _ m (check_times-Ends len k nested rest h (omega (arith, l, m)))))
                Ends-failed))))

  pub check-Ends : (fuel : ℕ) (c : List ℕ) → length c < fuel → Ends (length c) (check atoi fuel c)
  unfolding check get_u8 bind
  check-Ends zero c h = absurd (omega arith)
  check-Ends (suc fuel) [] h = Ends-failed
  check-Ends (suc fuel) (tag ∷ c) h = Ends-le _ (omega arith) (
      check_as-Shrinks (check atoi fuel) tag (length c) c
        (λ c' l. check-Ends fuel c' (omega (arith, l, h))) (omega arith))

  parse_as-Shrinks :
      (nested : Parser Frame) (tag k : ℕ) (c : List ℕ)
      → ((c' : List ℕ) → length c' ≤ k → Ends (length c') (nested c'))
      → length c ≤ k
      → Ends (length c) (parse_as atoi nested tag c)
  unfolding parse_as
  parse_as-Shrinks nested tag k c h l =
      Ends-if _ _ _ (Shrinks-bind _ _ get_line-Ends (text-Shrinks simple) c) (
        Ends-if _ _ _ (Shrinks-bind _ _ get_line-Ends (text-Shrinks error) c) (
          Ends-if _ _ _ (Shrinks-bind _ _ (get_decimal-Ends atoi) (λ n. Shrinks-pure (integer n)) c)
            (Ends-if _ _ _ (parse_bulk-Shrinks c) (
              Ends-if _ _ _
                (Ends-bind _ (get_decimal-Ends atoi c) (λ len rest m.
                  Ends-bind _
                    (Ends-le _ m (parse_times-Ends len k nested rest h (omega (arith, l, m))))
                    (λ fs rest' m'. Ends-parsed m')))
                Ends-panicked))))

  pub parse-Ends : (fuel : ℕ) (c : List ℕ) → length c < fuel → Ends (length c) (parse atoi fuel c)
  unfolding parse get_u8 bind
  parse-Ends zero c h = absurd (omega arith)
  parse-Ends (suc fuel) [] h = Ends-failed
  parse-Ends (suc fuel) (tag ∷ c) h = Ends-le _ (omega arith) (
      parse_as-Shrinks (parse atoi fuel) tag (length c) c
        (λ c' l. parse-Ends fuel c' (omega (arith, l, h))) (omega arith))

  -- `check` and `parse` end on every input, when the fuel is greater than the number of bytes: they
  -- do not run out of it, and they leave at most as many bytes as they are given.
  pub check-parse-end :
      (fuel : ℕ) (c : List ℕ)
      → length c < fuel
      → Ends (length c) (check atoi fuel c) × Ends (length c) (parse atoi fuel c)
  check-parse-end fuel c h = (check-Ends fuel c h, parse-Ends fuel c h)
