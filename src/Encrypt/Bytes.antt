-- ===== src/Encrypt/Bytes.antt =====
-- Bytes, their exclusive or, and results that may be an error or a panic.
use Prim.Native.Nat.{bit_xor}
use seckill_pkg.Base.{
  ℕ, zero, suc, ◌≤◌, ◌<◌, ◌≡◌, refl, sym, subst, ◌⊎◌, inl, inr, Bool, true, false, ◌&&◌, Option,
  List, [], ◌∷◌, arith, All, length, ltb, eqb, if◌then◌else◌,
}

abbrev pub Bytes : Type 0
Bytes = List ℕ

abbrev pub IsByte : ℕ → Type 0
IsByte b = b < 256

-- encoding.go: an Encoding; `none` is the error of DecodeString.
pub record Encoding : Type 0 where
  pub encode_to_string : Bytes → List ℕ
  pub decode_string : List ℕ → Option Bytes

-- How a function of the package ends: with a value, with an error, or with a panic.
pub data Out (A : Type 0) : Type 0 where
  ok : A → Out A
  err : Out A
  panic : Out A

-- Position by position, as far as both go.
abbrev pub xor_bytes : Bytes → Bytes → Bytes
xor_bytes [] k = []
xor_bytes (a ∷ s) [] = []
xor_bytes (a ∷ s) (b ∷ k) = bit_xor a b ∷ xor_bytes s k

-- The two laws of the exclusive or of bytes, at one pair.
abbrev good_pair : ℕ → ℕ → Bool
good_pair a b = eqb (bit_xor (bit_xor a b) b) a && ltb (bit_xor a b) 256

-- The pairs of one byte with those below a bound, and of the bytes below a bound with all bytes.
good_row : ℕ → ℕ → Bool
good_row a zero = true
good_row a (suc b) = if good_pair a b then good_row a b else false

good_rows : ℕ → Bool
unfolding good_row
good_rows zero = true
good_rows (suc a) = if good_row a 256 then good_rows a else false

both : (x y : Bool) → (if x then y else false) ≡ true → (x ≡ true) × (y ≡ true)
both true y h = (refl, h)
both false y h = absurd (ground (arith, h))

last_or_below : (a bound : ℕ) → a < suc bound → (a ≡ bound) ⊎ (a < bound)
last_or_below a bound h = ground arith

in_row : (a bound b : ℕ) → good_row a bound ≡ true → b < bound → good_pair a b ≡ true
unfolding good_row
in_row a zero b row less = absurd (omega arith)
in_row a (suc bound) b row less =
    let (here, below) = both (good_pair a bound) (good_row a bound) row in
    elim (last_or_below b bound less) [
      | inl same ↦ subst (λ i. good_pair a i ≡ true) (sym same) here
      | inr lower ↦ in_row a bound b below lower
    ]

in_rows : (bound a : ℕ) → good_rows bound ≡ true → a < bound → good_row a 256 ≡ true
unfolding good_rows
in_rows zero a rows less = absurd (omega arith)
in_rows (suc bound) a rows less =
    let (here, below) = both (good_row bound 256) (good_rows bound) rows in
    elim (last_or_below a bound less) [
      | inl same ↦ subst (λ i. good_row i 256 ≡ true) (sym same) here
      | inr lower ↦ in_rows bound a below lower
    ]

all_rows : good_rows 256 ≡ true
unfolding good_rows good_row
all_rows = refl

good : (a b : ℕ) → a < 256 → b < 256 → good_pair a b ≡ true
good a b h k = in_row a 256 b (in_rows 256 a all_rows h) k

pub xor_twice : (a b : ℕ) → a < 256 → b < 256 → bit_xor (bit_xor a b) b ≡ a
xor_twice a b h k = ground (arith, good a b h k)

pub xor-IsByte : (a b : ℕ) → a < 256 → b < 256 → bit_xor a b < 256
xor-IsByte a b h k = ground (arith, good a b h k)

pub xor_bytes-All : (s k : Bytes) → All IsByte s → All IsByte k → All IsByte (xor_bytes s k)
xor_bytes-All [] k hs hk = tt
xor_bytes-All (a ∷ s) [] hs hk = tt
xor_bytes-All (a ∷ s) (b ∷ k) (p, hs) (q, hk) = (xor-IsByte a b p q, xor_bytes-All s k hs hk)

pub length-xor_bytes : (s k : Bytes) → length s ≤ length k → length (xor_bytes s k) ≡ length s
length-xor_bytes [] k h = refl
length-xor_bytes (a ∷ s) [] h = omega arith
length-xor_bytes (a ∷ s) (b ∷ k) h = omega (arith, length-xor_bytes s k)

pub xor_bytes_twice :
    (s k : Bytes)
    → All IsByte s
    → All IsByte k
    → length s ≤ length k
    → xor_bytes (xor_bytes s k) k ≡ s
xor_bytes_twice [] k hs hk h = refl
xor_bytes_twice (a ∷ s) [] hs hk h = absurd (omega arith)
xor_bytes_twice (a ∷ s) (b ∷ k) (p, hs) (q, hk) h =
    ground (arith, xor_twice a b p q, xor_bytes_twice s k hs hk)
