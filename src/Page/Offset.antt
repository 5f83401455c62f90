-- ===== src/Page/Offset.antt =====
-- Pages tile the rows: Offset.
use native.Mathlib.Nat.{mod-eq_of_lt, mod-add-mod, div-eq_of_lt-le, div-mul-le_self, lt-div-mul-add}
use seckill_pkg.Base.{
  ℕ, zero, suc, ◌+◌, ◌-◌, ◌*◌, ◌/◌, ◌%◌, ◌≤◌, ◌<◌, ◌↔◌, ◌≡◌, ap, ◌∙◌, sym, arith,
}
use seckill_pkg.Page.{word, offset}

-- Without overflow the offset is the number of rows on the pages before.
offset_exact :
    (page_no page_size : ℕ)
    → 1 ≤ page_no
    → page_no < word
    → (page_no - 1) * page_size < word
    → offset page_no page_size ≡ (page_no - 1) * page_size
unfolding offset
offset_exact page_no page_size h k fits =
    let before : (page_no + word - 1) % word ≡ page_no - 1 = omega arith in
    rw before (mod-eq_of_lt fits)

-- For a positive page size and without overflow, a row lies on the page that its index divided
-- by the page size gives, and on no other.
pub row_on_one_page :
    (row page_size page_no : ℕ)
    → 0 < page_size
    → 1 ≤ page_no
    → page_no < word
    → (page_no - 1) * page_size < word
    → ((offset page_no page_size ≤ row) × (row < offset page_no page_size + page_size))
      ↔ (page_no ≡ row / page_size + 1)
row_on_one_page row page_size page_no pos h k fits = rw (offset_exact page_no page_size h k fits) (
  (λ on.
      let quotient : row / page_size ≡ page_no - 1 =
        div-eq_of_lt-le page_size on.0 (grind (arith, on.1)) in
      omega arith),
  (λ e.
      let quotient : page_no - 1 ≡ row / page_size = omega arith in
      rw quotient (div-mul-le_self row page_size, lt-div-mul-add {a = row} pos)),
)

wrapped : (k s : ℕ) → k < word → (k * s) % word ≡ (((k + word - 1) % word * s) % word + s) % word
wrapped zero s h =
    let last : (zero + word - 1) % word ≡ word - 1 = omega arith in rw last (omega arith)
wrapped (suc k) s h =
    let before : (suc k + word - 1) % word ≡ k = omega arith in
    rw before (ap (λ x. x % word) (omega arith) ∙ sym (mod-add-mod (k * s) word s))

-- The next page starts where a page ends, also when the numbers wrap around.
pub next_page :
    (page_no page_size : ℕ)
    → page_no < word
    → offset ((page_no + 1) % word) page_size ≡ (offset page_no page_size + page_size) % word
unfolding offset
next_page page_no page_size h =
    let same : ((page_no + 1) % word + word - 1) % word ≡ page_no = omega arith in
    rw same (wrapped page_no page_size h)
