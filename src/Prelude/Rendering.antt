-- ===== src/Prelude/Rendering.antt =====
-- What the source uses of Rust's texts: `str::trim`, numbers in decimal and `join`.
use Prim.Native.Nat.{ℕ, ◌<◌, zero, suc, ◌+◌, ◌/◌, ◌%◌}
use Prim.Native.Char.{code}
use Prim.Native.String.{String, slice, ◌++◌ as ◌<>◌}
use mathlib.Core.Bool.{Bool, ◌&&◌, ◌||◌}
use mathlib.Core.List.{List, [], ◌∷◌}
use text.Mathlib.Text.{◌==◌ as str_eq}
use mathlib.Core.Path.{◌≡◌, refl}
use mathlib.Core.Logic.{inl, inr}
use native.Mathlib.Omega.{arith}
use claude_code_portal.Prelude.Tests.{Bool-cases, ltb, leb, ◌==◌, if◌then◌else◌}

-- `char::is_whitespace`.
unfoldable pub is_whitespace : ℕ → Bool
is_whitespace c =
    (leb 9 c && leb c 13)
    || ((c == 32 || (c == 133 || c == 160))
        || ((c == 5760 || (leb 8192 c && leb c 8202))
            || ((c == 8232 || c == 8233) || (c == 8239 || (c == 8287 || c == 12288)))))

unfoldable pub trim_start : String → String
unfolding is_whitespace
trim_start String.[] = String.[]
trim_start (String.◌∷◌ c s) = if is_whitespace (code c) then trim_start s else String.◌∷◌ c s

unfoldable pub trim_end : String → String
unfolding is_whitespace
trim_end String.[] = String.[]
trim_end (String.◌∷◌ c s) =
    let rest = trim_end s in
    if is_whitespace (code c) && str_eq rest "" then "" else String.◌∷◌ c rest

digit : ℕ → String
digit n = slice "0123456789" n (n + 1)

-- A number has at most as many digits as its value and one.
digits : ℕ → ℕ → String → String
unfolding digit
digits zero n rest = rest
digits (suc fuel) n rest =
    let more = digits fuel (n / 10) (digit (n % 10) <> rest) in
    if ltb n 10 then digit n <> rest else more

unfoldable pub decimal : ℕ → String
unfolding digits
decimal n = digits (suc n) n ""

unfoldable pub join : String → List String → String
join sep [] = ""
join sep (x ∷ []) = x
join sep (x ∷ y ∷ xs) = x <> (sep <> join sep (y ∷ xs))

abbrev pub sum : List ℕ → ℕ
sum [] = 0
sum (d ∷ ds) = d + sum ds

-- More fuel than the number's value and one changes nothing.
digits_enough :
    (fuel n : ℕ) (rest : String) → n < fuel → digits fuel n rest ≡ digits (suc fuel) n rest
unfolding digits
digits_enough zero n rest h = ground (arith, h)
digits_enough (suc fuel) n rest h = elim (Bool-cases (ltb n 10)) [
  | inl small ↦ rw (small, digits) refl
  | inr big ↦
      rw (big, digits)
        (digits_enough fuel (n / 10) (digit (n % 10) <> rest) (ground (arith, h, big)))
]
