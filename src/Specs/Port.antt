-- ===== src/Specs/Port.antt =====
-- A port in a text: `u16::from_str` and `Display` of `u16`, for src/specs.rs.
use Prim.Native.Char.{Char, code}
use punchgate.Common.{
  ℕ, zero, suc, ◌+◌, ◌-◌, ◌*◌, ◌/◌, ◌%◌, ◌^◌, ◌<◌, ◌≡◌, refl, false, ◌&&◌, Option, none, some,
  String, nat_eq, Bool-cases, Option-cases, ◌⊎◌, subst, inl, inr, if_cases, if_rule, ◌∙◌, ap, leb,
  ltb, arith, if◌then◌else◌,
}
use punchgate.Common.{Result, ok, err}
use punchgate.Specs.Text.{is_char, is_char-eq, is_empty_text, Lacks}
use native.Mathlib.Nat.{pow-suc}

-- `std::num::IntErrorKind`, as far as a `u16` has it.
pub data ParseIntError : Type 0 where
  empty invalid_digit pos_overflow : ParseIntError

-- `char::to_digit(10)`.
unfoldable pub to_digit : Char → Option ℕ
to_digit c = if leb b'0' (code c) && leb (code c) b'9' then some (code c - b'0') else none

-- The digits behind the number read so far.
unfoldable pub scan_digits : String → ℕ → Result ParseIntError ℕ
unfolding to_digit
scan_digits String.[] n = ok n
scan_digits (String.◌∷◌ c s) n = elim (to_digit c) [
  | none ↦ err invalid_digit
  | some d ↦ if ltb 65535 (n * 10 + d) then err pos_overflow else scan_digits s (n * 10 + d)
]

unfoldable pub parse_u16 : String → Result ParseIntError ℕ
unfolding scan_digits
parse_u16 String.[] = err empty
parse_u16 (String.◌∷◌ c String.[]) =
    if is_char c "+" then err invalid_digit else scan_digits (String.◌∷◌ c String.[]) 0
parse_u16 (String.◌∷◌ c (String.◌∷◌ d s)) =
    if is_char c "+"
    then scan_digits (String.◌∷◌ d s) 0
    else scan_digits (String.◌∷◌ c (String.◌∷◌ d s)) 0

abbrev pub digit_char : ℕ → Char
digit_char zero = "0"
digit_char (suc zero) = "1"
digit_char (suc (suc zero)) = "2"
digit_char (suc (suc (suc zero))) = "3"
digit_char (suc (suc (suc (suc zero)))) = "4"
digit_char (suc (suc (suc (suc (suc zero))))) = "5"
digit_char (suc (suc (suc (suc (suc (suc zero)))))) = "6"
digit_char (suc (suc (suc (suc (suc (suc (suc zero))))))) = "7"
digit_char (suc (suc (suc (suc (suc (suc (suc (suc zero)))))))) = "8"
digit_char _ = "9"

-- The digits of a number, in front of a text; a `u16` has five at most.
unfoldable pub print_digits : ℕ → ℕ → String → String
print_digits zero n out = out
print_digits (suc f) n out =
    let rest = print_digits f (n / 10) (String.◌∷◌ (digit_char (n % 10)) out) in
    if ltb n 10 then String.◌∷◌ (digit_char (n % 10)) out else rest

unfoldable pub print_u16 : ℕ → String
unfolding print_digits
print_u16 n = print_digits 5 n String.[]

to_digit-digit_char : (d : ℕ) → d < 10 → to_digit (digit_char d) ≡ some d
unfolding to_digit
to_digit-digit_char zero h = refl
to_digit-digit_char (suc zero) h = refl
to_digit-digit_char (suc (suc zero)) h = refl
to_digit-digit_char (suc (suc (suc zero))) h = refl
to_digit-digit_char (suc (suc (suc (suc zero)))) h = refl
to_digit-digit_char (suc (suc (suc (suc (suc zero))))) h = refl
to_digit-digit_char (suc (suc (suc (suc (suc (suc zero)))))) h = refl
to_digit-digit_char (suc (suc (suc (suc (suc (suc (suc zero))))))) h = refl
to_digit-digit_char (suc (suc (suc (suc (suc (suc (suc (suc zero)))))))) h = refl
to_digit-digit_char (suc (suc (suc (suc (suc (suc (suc (suc (suc zero))))))))) h = refl
to_digit-digit_char (suc (suc (suc (suc (suc (suc (suc (suc (suc (suc d)))))))))) h =
    absurd (omega arith)

scan_digit :
    (d n : ℕ) (s : String)
    → d < 10
    → n * 10 + d < 2 ^ 16
    → scan_digits (String.◌∷◌ (digit_char d) s) n ≡ scan_digits s (n * 10 + d)
unfolding scan_digits
scan_digit d n s h b = rw (scan_digits, to_digit-digit_char d h) (ground arith)

mod_small : (n : ℕ) → n < 10 → n % 10 ≡ n
mod_small n h = omega arith

scan_last :
    (n : ℕ) (out : String)
    → n < 10
    → scan_digits (String.◌∷◌ (digit_char (n % 10)) out) 0 ≡ scan_digits out n
scan_last n out h =
    let e : 0 * 10 + n ≡ n = omega arith in
    rw (mod_small n h) (scan_digit n 0 out h (ground arith) ∙ ap (λ (x : ℕ). scan_digits out x) e)

scan_more :
    (n : ℕ) (out : String)
    → n < 2 ^ 16
    → scan_digits (String.◌∷◌ (digit_char (n % 10)) out) (n / 10) ≡ scan_digits out n
scan_more n out b =
    let e : n / 10 * 10 + n % 10 ≡ n = omega arith in
    scan_digit (n % 10) (n / 10) out (omega arith) (omega arith)
    ∙ ap (λ (x : ℕ). scan_digits out x) e

div_ten : (k n : ℕ) → n < k * 10 → n / 10 < k
div_ten k n h = omega arith

scan_digits-print_digits :
    (f n : ℕ) (out : String)
    → 0 < f
    → n < 10 ^ f
    → n < 2 ^ 16
    → scan_digits (print_digits f n out) 0 ≡ scan_digits out n
unfolding print_digits
scan_digits-print_digits zero n out z h b = absurd (omega (arith, z))
scan_digits-print_digits (suc zero) n out z h b =
    if_rule (λ (x : String). scan_digits x 0 ≡ scan_digits out n) (ltb n 10) (scan_last n out h)
      (scan_last n out h)
scan_digits-print_digits (suc (suc f)) n out z h b =
    if_cases (λ (x : String). scan_digits x 0 ≡ scan_digits out n) (ltb n 10)
      (λ e. scan_last n out (ground arith))
      (λ e.
        scan_digits-print_digits (suc f) (n / 10) (String.◌∷◌ (digit_char (n % 10)) out)
          (omega arith) (div_ten (10 ^ suc f) n (subst (λ (x : ℕ). n < x) (pow-suc 10 (suc f)) h))
          (omega arith)
        ∙ scan_more n out b)

-- A digit is none of the characters that separate the parts.
abbrev pub NotDigit : Char → Type 0
NotDigit c = to_digit c ≡ none

digit-is_char : (c : Char) → NotDigit c → (n : ℕ) → is_char (digit_char (n % 10)) c ≡ false
digit-is_char c k n = elim (Bool-cases (is_char (digit_char (n % 10)) c)) [
  | inr e ↦ e
  | inl e ↦ absurd (
      ground (
        arith,
        e,
        to_digit-digit_char (n % 10) (omega arith),
        is_char-eq (digit_char (n % 10)) c e,
        k,
      ))
]

pub print_digits-Lacks :
    (c : Char)
    → NotDigit c
    → (f n : ℕ) (out : String) → Lacks c out
    → Lacks c (print_digits f n out)
unfolding print_digits
print_digits-Lacks c k zero n out h = h
print_digits-Lacks c k (suc f) n out h =
    if_rule (λ (x : String). Lacks c x) (ltb n 10) (digit-is_char c k n, h)
      (print_digits-Lacks c k f (n / 10) (String.◌∷◌ (digit_char (n % 10)) out)
        (digit-is_char c k n, h))

-- A number is not the empty text.
print_digits_nonempty :
    (f n : ℕ) (out : String)
    → 0 < f ⊎ (is_empty_text out ≡ false)
    → is_empty_text (print_digits f n out) ≡ false
unfolding print_digits
print_digits_nonempty zero n out (inl h) = absurd (omega (arith, h))
print_digits_nonempty zero n out (inr h) = h
print_digits_nonempty (suc f) n out h =
    if_rule (λ (x : String). is_empty_text x ≡ false) (ltb n 10) refl
      (print_digits_nonempty f (n / 10) (String.◌∷◌ (digit_char (n % 10)) out) (inr refl))

parse_u16-scan_digits :
    (s : String) → is_empty_text s ≡ false → Lacks "+" s → parse_u16 s ≡ scan_digits s 0
unfolding parse_u16
parse_u16-scan_digits String.[] e h = absurd (ground (arith, e))
parse_u16-scan_digits (String.◌∷◌ c String.[]) e h = rw h.0 refl
parse_u16-scan_digits (String.◌∷◌ c (String.◌∷◌ d s)) e h = rw h.0 refl

pub print_u16-Lacks : (c : Char) → NotDigit c → (n : ℕ) → Lacks c (print_u16 n)
unfolding print_u16
print_u16-Lacks c k n = print_digits-Lacks c k 5 n String.[] tt

-- A port that is printed parses to the same port.
pub parse_u16-print_u16 : (n : ℕ) → n < 2 ^ 16 → parse_u16 (print_u16 n) ≡ ok n
unfolding print_u16 scan_digits to_digit
parse_u16-print_u16 n h =
    parse_u16-scan_digits (print_u16 n) (print_digits_nonempty 5 n String.[] (inl (omega arith)))
      (print_u16-Lacks "+" refl n)
    ∙ scan_digits-print_digits 5 n String.[] (omega arith) (omega arith) h

abbrev IsU16 : Result ParseIntError ℕ → Type 0
IsU16 (ok n) = n < 2 ^ 16
IsU16 (err e) = Unit {0}

scan_digits-IsU16 : (s : String) (n : ℕ) → n < 2 ^ 16 → IsU16 (scan_digits s n)
unfolding scan_digits
scan_digits-IsU16 String.[] n h = h
scan_digits-IsU16 (String.◌∷◌ c s) n h = elim (Option-cases (to_digit c)) [
  | inl e ↦ rw (IsU16, scan_digits, e) tt
  | inr (d, e) ↦
      rw (IsU16, scan_digits, e)
        (if_cases IsU16 (ltb 65535 (n * 10 + d)) (λ _. tt)
          (λ k. scan_digits-IsU16 s (n * 10 + d) (ground arith)))
]

parse_u16-IsU16 : (s : String) → IsU16 (parse_u16 s)
unfolding parse_u16
parse_u16-IsU16 String.[] = tt
parse_u16-IsU16 (String.◌∷◌ c String.[]) =
    if_rule IsU16 (is_char c "+") tt (scan_digits-IsU16 (String.◌∷◌ c String.[]) 0 (omega arith))
parse_u16-IsU16 (String.◌∷◌ c (String.◌∷◌ d s)) =
    if_rule IsU16 (is_char c "+") (scan_digits-IsU16 (String.◌∷◌ d s) 0 (omega arith))
      (scan_digits-IsU16 (String.◌∷◌ c (String.◌∷◌ d s)) 0 (omega arith))

-- A port that the parser accepts fits into 16 bits.
pub parse_u16_bound : (s : String) {n : ℕ} → parse_u16 s ≡ ok n → n < 2 ^ 16
parse_u16_bound s h = subst IsU16 h (parse_u16-IsU16 s)
