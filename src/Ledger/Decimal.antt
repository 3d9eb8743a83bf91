-- ===== src/Ledger/Decimal.antt =====
-- The decimal print of `%d`, for a number that is not negative.
use nexus_agent_protocol.Prelude.{
  ℕ, zero, suc, ◌+◌, ◌/◌, ◌%◌, ◌<◌, ◌≡◌, [], ◌∷◌, ◌++◌, Bytes, arith, ltb, if◌then◌else◌,
}

-- The fuel bounds the number of digits; a number has fewer digits than its successor counts.
unfoldable pub digits : ℕ → ℕ → Bytes
digits zero n = []
digits (suc fuel) n =
    let rest = digits fuel (n / 10) ++ (b'0' + n % 10) ∷ [] in
    if ltb n 10 then (b'0' + n) ∷ [] else rest

unfoldable pub decimal : ℕ → Bytes
unfolding digits
decimal n = digits (suc n) n

-- More fuel than the number makes no difference.
digits_enough : (f g n : ℕ) → n < f → n < g → digits f n ≡ digits g n
unfolding digits
digits_enough zero g n h k = absurd (omega arith)
digits_enough (suc f) zero n h k = absurd (omega arith)
digits_enough (suc f) (suc g) n h k = ground (arith, digits_enough f g (n / 10))

pub decimal_step :
    (n : ℕ)
    → decimal n ≡ (if ltb n 10 then (b'0' + n) ∷ [] else decimal (n / 10) ++ (b'0' + n % 10) ∷ [])
unfolding decimal
decimal_step n = ground (arith, digits_enough n (suc (n / 10)) (n / 10))
