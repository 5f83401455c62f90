-- ===== src/Page/Columns.antt =====
-- Sort reads what its comment describes: `id+,create_time-` becomes `id,create_time DESC`.
use seckill_pkg.Base.{
  ℕ, ◌≡◌, ◌≢◌, refl, ap, ◌∙◌, Bool, true, false, List, [], ◌∷◌, ◌++◌, map, arith, Text, codes,
  if◌then◌else◌, is_empty, eqb, All, All-append, is_space, trim_right, trim_space, ends_with,
  remove_all, split, join, append-nil,
}
use seckill_pkg.Page.{PageRequest, contain_string, read_item, db_sorts, sort}

-- How an item asks for a direction.
pub data Mark : Type 0 where
  bare : Mark
  plus : Mark
  minus : Mark

abbrev pub Item : Type 0
Item = Text × Mark

abbrev pub mark_text : Mark → Text
mark_text bare = []
mark_text plus = b'+' ∷ []
mark_text minus = b'-' ∷ []

-- The item as a client writes it, and the column that it stands for.
abbrev pub written : Item → Text
written (name, mark) = name ++ mark_text mark

abbrev pub column : Item → Text
column (name, bare) = name
column (name, plus) = name
column (name, minus) = name ++ codes " DESC"

-- A character of a plain column name.
abbrev pub IsPlain : ℕ → Type 0
IsPlain c = (c ≢ b',') × (c ≢ b'+') × (c ≢ b'-') × (is_space c ≡ false)

abbrev pub IsName : Text → Type 0
IsName name = (name ≢ []) × All IsPlain name

abbrev IsSolid : ℕ → Type 0
IsSolid c = (c ≢ b',') × (is_space c ≡ false)

split_of_solid : (s : Text) → All IsSolid s → split s b',' ≡ s ∷ []
unfolding split
split_of_solid [] h = refl
split_of_solid (c ∷ s) (p, h) = ground (arith, split_of_solid s h)

split_before : (s rest : Text) → All IsSolid s → split (s ++ b',' ∷ rest) b',' ≡ s ∷ split rest b','
unfolding split
split_before [] rest h = refl
split_before (c ∷ s) rest (p, h) = ground (arith, split_before s rest h)

split-join :
    (s : Text) (l : List Text) → All (All IsSolid) (s ∷ l) → split (join (s ∷ l) b',') b',' ≡ s ∷ l
unfolding join
split-join s [] (p, h) = split_of_solid s p
split-join s (t ∷ l) (p, h) =
    split_before s (join (t ∷ l) b',') p ∙ ap (λ r. s ∷ r) (split-join t l h)

trim_right_of_solid : (s : Text) → All IsSolid s → trim_right s ≡ s
trim_right_of_solid [] h = refl
trim_right_of_solid (c ∷ s) (p, h) = ground (arith, trim_right_of_solid s h)

trim_space_of_solid : (s : Text) → All IsSolid s → trim_space s ≡ s
unfolding trim_space
trim_space_of_solid [] h = refl
trim_space_of_solid (c ∷ s) (p, h) = rw (p.1) (trim_right_of_solid (c ∷ s) (p, h))

ends_with_last : (s : Text) (c d : ℕ) → ends_with (s ++ c ∷ []) d ≡ eqb c d
unfolding ends_with
ends_with_last [] c d = refl
ends_with_last (b ∷ []) c d = refl
ends_with_last (b ∷ e ∷ s) c d = ends_with_last (e ∷ s) c d

ends_with_of_ne : (s : Text) (d : ℕ) → All (λ c. c ≢ d) s → ends_with s d ≡ false
unfolding ends_with
ends_with_of_ne [] d h = refl
ends_with_of_ne (c ∷ []) d (n, h) = ground arith
ends_with_of_ne (c ∷ e ∷ s) d (n, h) = ends_with_of_ne (e ∷ s) d h

remove_all_of_ne : (s : Text) (d : ℕ) → All (λ c. c ≢ d) s → remove_all s d ≡ s
unfolding remove_all
remove_all_of_ne [] d h = refl
remove_all_of_ne (c ∷ s) d (n, h) = ground (arith, remove_all_of_ne s d h)

remove_all_last : (s : Text) (d : ℕ) → All (λ c. c ≢ d) s → remove_all (s ++ d ∷ []) d ≡ s
unfolding remove_all
remove_all_last [] d h = ground arith
remove_all_last (c ∷ s) d (n, h) = ground (arith, remove_all_last s d h)

All-map : {P Q : ℕ → Type 0} (s : Text) → ((c : ℕ) → P c → Q c) → All P s → All Q s
All-map [] f h = tt
All-map (c ∷ s) f (p, h) = (f c p, All-map s f h)

abbrev is_desc : Mark → Bool
is_desc bare = false
is_desc plus = false
is_desc minus = true

read_item_written :
    (name : Text) (mark : Mark)
    → All (λ c. c ≢ b'-') name
    → All (λ c. c ≢ b'+') name
    → read_item (written (name, mark)) ≡ (name, is_desc mark)
unfolding read_item
read_item_written name bare h k =
    rw (append-nil name, ends_with_of_ne name b'-' h) (rw (ends_with_of_ne name b'+' k))
read_item_written name plus h k =
    rw (ends_with_last name b'+' b'-')
      (rw (ends_with_last name b'+' b'+', remove_all_last name b'+' k))
read_item_written name minus h k =
    rw (ends_with_last name b'-' b'-', remove_all_last name b'-' h)
      (rw (ends_with_of_ne name b'+' k))

written-IsSolid : (item : Item) → All IsPlain item.0 → All IsSolid (written item)
unfolding is_space
written-IsSolid (name, bare) h = All-append IsSolid name [] (All-map name (λ c p. (p.0, p.3)) h) tt
written-IsSolid (name, plus) h =
    All-append IsSolid name (b'+' ∷ []) (All-map name (λ c p. (p.0, p.3)) h)
      ((omega arith, refl), tt)
written-IsSolid (name, minus) h =
    All-append IsSolid name (b'-' ∷ []) (All-map name (λ c p. (p.0, p.3)) h)
      ((omega arith, refl), tt)

-- What Sort must be given: plain names that are on the white list.
abbrev pub IsRequested : List Text → Item → Type 0
IsRequested allow item = IsName item.0 × (contain_string allow item.0 ≡ true)

written-ne-nil : (item : Item) → item.0 ≢ [] → is_empty (written item) ≡ false
written-ne-nil ([], mark) h = absurd (h refl)
written-ne-nil (c ∷ name, mark) h = refl

column_of :
    (name : Text) (mark : Mark)
    → (if is_desc mark then name ++ codes " DESC" else name) ≡ column (name, mark)
column_of name bare = refl
column_of name plus = refl
column_of name minus = refl

db_sorts-written :
    (allow : List Text) (items : List Item)
    → All (IsRequested allow) items
    → db_sorts allow (map written items) ≡ map column items
unfolding db_sorts
db_sorts-written allow [] h = refl
db_sorts-written allow ((name, mark) ∷ items) (((ne, plain), listed), h) =
    rw
      (
        trim_space_of_solid (written (name, mark)) (written-IsSolid (name, mark) plain),
        written-ne-nil (name, mark) ne,
        read_item_written name mark (All-map name (λ c p. p.2) plain)
            (All-map name (λ c p. p.1) plain),
        listed,
        column_of name mark,
        db_sorts-written allow items h,
      )
      refl

join-ne-nil :
    (s : Text) (l : List Text) (sep : ℕ) → is_empty s ≡ false → is_empty (join (s ∷ l) sep) ≡ false
unfolding join
join-ne-nil [] l sep h = cc
join-ne-nil (c ∷ s) [] sep h = refl
join-ne-nil (c ∷ s) (t ∷ l) sep h = refl

All-written :
    (allow : List Text) (items : List Item)
    → All (IsRequested allow) items
    → All (All IsSolid) (map written items)
All-written allow [] h = tt
All-written allow (item ∷ items) (p, h) = (written-IsSolid item p.0.1, All-written allow items h)

-- A list of one or more marked names that are all on the white list comes out of Sort as the
-- same columns in the same order, descending exactly where the mark is a minus.
pub sort_written :
    {V : Type 0} (pr : PageRequest V) (item : Item) (items : List Item)
    → pr.sort_by ≡ join (map written (item ∷ items)) b','
    → All (IsRequested pr.allow_fields) (item ∷ items)
    → sort pr ≡ (join (map column (item ∷ items)) b',', true)
unfolding sort
sort_written pr item items given h =
    rw
      (
        given,
        join-ne-nil (written item) (map written items) b',' (written-ne-nil item h.0.0.0),
        split-join (written item) (map written items)
            (All-written pr.allow_fields (item ∷ items) h),
        db_sorts-written pr.allow_fields (item ∷ items) h,
      )
      refl
