-- ===== src/Page/Whitelist.antt =====
-- What Sort may put into an ORDER BY clause: columns of the white list, with or without DESC.
use seckill_pkg.Base.{
  ◌≡◌, ◌≢◌, refl, ap, ◌⊎◌, inl, inr, Bool, true, false, ◌||◌, not, List, [], ◌∷◌, ◌++◌, arith, Text,
  codes, ◌==◌, ==_iff, if◌then◌else◌, is_empty, In, All, Bool-cases, trim_space, split, join,
}
use seckill_pkg.Page.{PageRequest, contain_string, read_item, db_sorts, sort}

-- A name is on the list up to the blanks around it.
pub record IsListed (allow : List Text) (w : Text) : Type 0 where
  pub entry : Text
  pub listed : In entry allow
  pub same : trim_space entry ≡ trim_space w

contain_string_sound :
    (allow : List Text) (w : Text) → contain_string allow w ≡ true → IsListed allow w
unfolding contain_string
contain_string_sound [] w h = cc
contain_string_sound (e ∷ ss) w h = elim (Bool-cases (trim_space e == trim_space w)) [
  | inl here ↦ record { entry = e; listed = inl refl; same = (==_iff _ _).0 here }
  | inr later ↦
      let rest = contain_string_sound ss w (ground arith) in
      record { entry = rest.entry; listed = inr rest.listed; same = rest.same }
]

-- A column of the clause: a listed name, ascending or descending.
pub record IsColumn (allow : List Text) (column : Text) : Type 0 where
  pub name : Text
  pub is_listed : IsListed allow name
  pub shape : (column ≡ name) ⊎ (column ≡ name ++ codes " DESC")

IsColumn-IsColumn :
    (allow : List Text) (w : Text) (desc : Bool)
    → contain_string allow w ≡ true
    → IsColumn allow (if desc then w ++ codes " DESC" else w)
IsColumn-IsColumn allow w true h = record {
  name = w;
  is_listed = contain_string_sound allow w h;
  shape = inr refl;
}
IsColumn-IsColumn allow w false h = record {
  name = w;
  is_listed = contain_string_sound allow w h;
  shape = inl refl;
}

db_sorts-All : (allow sorts : List Text) → All (IsColumn allow) (db_sorts allow sorts)
unfolding db_sorts
db_sorts-All allow [] = tt
db_sorts-All allow (piece ∷ sorts) =
    let v = trim_space piece in
    let w = (read_item v).0 in
    elim (Bool-cases (is_empty v || not (contain_string allow w))) [
      | inl skipped ↦ rw skipped (db_sorts-All allow sorts)
      | inr kept ↦ rw kept (
        IsColumn-IsColumn allow w (read_item v).1 (ground (arith, kept)),
        db_sorts-All allow sorts,
      )
    ]

-- Sort returns either the empty text and false, or true with a clause that joins one or more
-- columns by commas, each of them a name that is on the white list up to the blanks around it,
-- alone or with DESC behind it.
pub sort_allowed :
    {V : Type 0} (pr : PageRequest V)
    → ((sort pr ≡ ([], false)))
      ⊎ ((columns : List Text) × (sort pr ≡ (join columns b',', true))
          × (columns ≢ [])
          × All (IsColumn pr.allow_fields) columns)
unfolding sort
sort_allowed pr = elim (Bool-cases (is_empty pr.sort_by)) [
  | inl none_given ↦ inl (rw none_given)
  | inr given ↦
      let columns = db_sorts pr.allow_fields (split pr.sort_by b',') in
      elim (Bool-cases (is_empty columns)) [
        | inl none_kept ↦ inl (rw (given, none_kept))
        | inr kept ↦ inr (
          columns,
          rw (given, kept),
          (λ e. let bad : is_empty columns ≡ true = ap is_empty e in cc),
          db_sorts-All pr.allow_fields (split pr.sort_by b','),
        )
      ]
]
