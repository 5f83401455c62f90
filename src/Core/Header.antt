-- ===== src/Core/Header.antt =====
-- core/context.go: Header, which copies the header of a request. A map holds slices, and a slice is
-- shared by all who hold it, so slices stand in a store under addresses.
use seckill_pkg.Base.{
  ℕ, suc, ◌≤◌, ◌<◌, ◌≡◌, refl, ap, ◌∙◌, true, false, List, [], ◌∷◌, arith, if◌then◌else◌, eqb, Text,
  All, All-In, In,
}

-- The slices that were made so far have the addresses below `next`.
pub record Store : Type 0 where
  pub next : ℕ
  pub slice : ℕ → List Text

-- An http.Header: keys with the addresses of their values.
abbrev pub HttpHeader : Type 0
HttpHeader = List (Text × ℕ)

abbrev pub write : Store → ℕ → List Text → Store
write s at vs = record s { slice = λ a. if eqb a at then vs else s.slice a }

-- make and copy: a new slice with the values of another.
abbrev pub copied : Store → ℕ → Store
copied s from = record {
  next = suc (s.next);
  slice = λ a. if eqb a (s.next) then s.slice from else s.slice a;
}

-- Header
unfoldable pub header : Store → HttpHeader → Store × HttpHeader
header s [] = (s, [])
header s ((k, v) ∷ more) = let rest = header (copied s v) more in (rest.0, (k, s.next) ∷ rest.1)

-- What a holder of a header reads.
abbrev pub read_all : Store → HttpHeader → List (Text × List Text)
read_all s [] = []
read_all s ((k, v) ∷ more) = (k, s.slice v) ∷ read_all s more

abbrev pub IsMade : Store → HttpHeader → Type 0
IsMade s h = All (λ (e : Text × ℕ). e.1 < s.next) h

copied-made : (s : Store) (from a : ℕ) → a < s.next → (copied s from).slice a ≡ s.slice a
copied-made s from a h =
    let other : eqb a (s.next) ≡ false = ground (arith, h) in
    ap (λ b. if b then s.slice from else s.slice a) other

copied-new : (s : Store) (from : ℕ) → (copied s from).slice (s.next) ≡ s.slice from
copied-new s from =
    let same : eqb (s.next) (s.next) ≡ true = ground arith in
    ap (λ b. if b then s.slice from else s.slice (s.next)) same

header-made :
    (s : Store) (h : HttpHeader) (a : ℕ) → a < s.next → ((header s h).0).slice a ≡ s.slice a
unfolding header
header-made s [] a lt = refl
header-made s ((k, v) ∷ more) a lt =
    header-made (copied s v) more a (omega (arith, lt)) ∙ copied-made s v a lt

-- Stores that agree on the slices that were made read a header alike.
read_all-agree :
    (s t : Store) (n : ℕ) (h : HttpHeader)
    → ((a : ℕ) → a < n → t.slice a ≡ s.slice a)
    → All (λ (e : Text × ℕ). e.1 < n) h
    → read_all t h ≡ read_all s h
read_all-agree s t n [] agree made = refl
read_all-agree s t n ((k, v) ∷ more) agree (lt, made) =
    ap (λ vs. (k, vs) ∷ read_all t more) (agree v lt)
    ∙ ap (λ rest. (k, s.slice v) ∷ rest) (read_all-agree s t n more agree made)

IsMade-copied : (s : Store) (v : ℕ) (h : HttpHeader) → IsMade s h → IsMade (copied s v) h
IsMade-copied s v [] made = made
IsMade-copied s v (e ∷ more) (lt, made) = (omega (arith, lt), IsMade-copied s v more made)

read_all-header :
    (s : Store) (h : HttpHeader)
    → IsMade s h
    → read_all ((header s h).0) ((header s h).1) ≡ read_all s h
unfolding header
read_all-header s [] made = refl
read_all-header s ((k, v) ∷ more) (lt, made) =
    let t = (header (copied s v) more).0 in
    let clone = (header (copied s v) more).1 in
    ap (λ vs. (k, vs) ∷ read_all t clone)
      (header-made (copied s v) more (s.next) (omega arith) ∙ copied-new s v)
    ∙ ap (λ rest. (k, s.slice v) ∷ rest)
        (read_all-header (copied s v) more (IsMade-copied s v more made)
          ∙ read_all-agree s (copied s v) (s.next) more (copied-made s v) made)

header-new :
    (n : ℕ) (s : Store) (h : HttpHeader)
    → n ≤ s.next
    → All (λ (e : Text × ℕ). n ≤ e.1) ((header s h).1)
unfolding header
header-new n s [] le = tt
header-new n s ((k, v) ∷ more) le = (le, header-new n (copied s v) more (omega (arith, le)))

write-made :
    (t : Store) (n at a : ℕ) (vs : List Text) → n ≤ at → a < n → (write t at vs).slice a ≡ t.slice a
write-made t n at a vs le lt =
    let other : eqb a at ≡ false = ground (arith, le, lt) in
    ap (λ b. if b then vs else t.slice a) other

-- When the slices of a request's header were made before, the copy that Header gives reads as
-- the header does, and the header itself reads as before, also after any values were written
-- through any entry of the copy.
pub header_is_copy :
    (s : Store) (h : HttpHeader)
    → IsMade s h
    → (read_all ((header s h).0) ((header s h).1) ≡ read_all s h)
      × (read_all ((header s h).0) h ≡ read_all s h)
      × ((k : Text) (at : ℕ) (vs : List Text)
          → In (k, at) ((header s h).1)
          → read_all (write ((header s h).0) at vs) h ≡ read_all s h)
header_is_copy s h made =
    let t = (header s h).0 in
    let kept = read_all-agree s t (s.next) h (header-made s h) made in
    (
      read_all-header s h made,
      kept,
      λ k at vs in_copy.
          let fresh : s.next ≤ at =
            All-In (λ (e : Text × ℕ). s.next ≤ e.1) ((header s h).1)
              (header-new (s.next) s h (omega arith)) in_copy in
          read_all-agree t (write t at vs) (s.next) h
            (λ a lt. write-made t (s.next) at a vs fresh lt) made
          ∙ kept,
    )
