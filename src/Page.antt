-- ===== src/Page.antt =====
-- pkg/page/page_sort.go: paging, sorting and filtering of list requests. An `int` or `int64` is its
-- pattern of 64 bits, a number below 2 ^ 64. `V` is the type of `interface{}`.
pub mod Offset
pub mod Request
pub mod Whitelist
pub mod Columns
mod Tests
use seckill_pkg.Base.{
  ℕ, ◌+◌, ◌-◌, ◌*◌, ◌%◌, Bool, true, false, not, ◌||◌, Option, none, some, List, [], ◌∷◌, ◌++◌,
  Text, codes, ◌==◌, eqb, if◌then◌else◌, is_empty, trim_space, ends_with, remove_all, split, join,
}
use seckill_pkg.Base.Dict
use seckill_pkg.Base.Dict.{Dict}

abbrev pub word : ℕ
word = 18446744073709551616

-- `(pageNo - 1) * pageSize`, with the wrap-around of 64 bits
unfoldable pub offset : ℕ → ℕ → ℕ
offset page_no page_size = ((page_no + word - 1) % word * page_size) % word

pub record Page (L : Type 0) : Type 0 where
  pub total_count : ℕ
  pub list : L

abbrev pub new_page : {L : Type 0} → ℕ → L → Page L
new_page count list = record { total_count = count; list = list }

-- PageRequest; `none` is a nil Filter. A nil AllowFields reads as an empty one.
pub record PageRequest (V : Type 0) : Type 0 where
  pub page_index : ℕ
  pub page_size : ℕ
  pub sort_by : Text
  pub filter : Option (Dict V)
  pub allow_fields : List Text

abbrev pub new_page_request : {V : Type 0} → ℕ → ℕ → Text → Option (Dict V) → PageRequest V
new_page_request pi ps sort filter = record {
  page_index = pi;
  page_size = ps;
  sort_by = sort;
  filter = filter;
  allow_fields = [];
}

-- `make` of a nil Filter
abbrev pub make_filter : {V : Type 0} → Option (Dict V) → Dict V
make_filter none = []
make_filter (some m) = m

unfoldable pub check_field : {V : Type 0} → PageRequest V → PageRequest V
check_field pr = record pr {
  page_index = if eqb pr.page_index 0 then 1 else pr.page_index;
  page_size = if eqb pr.page_size 0 then 10 else pr.page_size;
  filter = some (make_filter pr.filter);
}

abbrev pub page_index_key : Text
page_index_key = codes "page_index"

abbrev pub page_size_key : Text
page_size_key = codes "page_size"

abbrev pub sort_key : Text
sort_key = codes "sort"

-- `case "page_index", "page_size", "sort":`
unfoldable pub is_reserved : Text → Bool
is_reserved k = k == page_index_key || k == page_size_key || k == sort_key

-- url.Values.Get: the first value, or the empty text.
unfoldable pub form_get : Text → Dict (List Text) → Text
form_get k form = elim (Dict.lookup k form) [ none ↦ [] | some l ↦ elim l [ [] ↦ [] | v ∷ vs ↦ v ] ]

-- The value goes into the Filter of a request.
abbrev pub put_filter : {V : Type 0} → Text → V → PageRequest V → PageRequest V
put_filter k v req = record req { filter = some (Dict.insert k v (make_filter req.filter)) }

-- NewPageFromRequest. `to_int` is cast.ToInt of a text, `to_string` cast.ToString, and `of_text`
-- makes an `interface{}` of a text. The form is a map, walked in the order of its list.
module _ {V : Type 0} (to_int : Text → ℕ) (to_string : Text → Text) (of_text : Text → V) where
  unfoldable pub collect_form : Dict (List Text) → PageRequest V → PageRequest V
  collect_form [] req = req
  collect_form ((k, []) ∷ form) req = collect_form form req
  collect_form ((k, v ∷ vs) ∷ form) req =
      collect_form form (if is_reserved k then req else put_filter k (of_text v) req)

  unfoldable pub new_page_from_request : Dict (List Text) → PageRequest V
  unfolding collect_form
  new_page_from_request form = collect_form form (
      check_field (
        new_page_request (to_int (form_get page_index_key form))
          (to_int (form_get page_size_key form)) (to_string (form_get sort_key form)) none))

-- A result of gjson: whether its Type is JSON or Null, and its Value.
pub record Field (V : Type 0) : Type 0 where
  pub is_complex : Bool
  pub value : V

-- What the code asks of encoding/json and gjson about a body `B`: json.Valid, `Get(k).Int()`,
-- `Get(k).String()` and `Map()`.
pub record Body (B V : Type 0) : Type 0 where
  pub valid : B → Bool
  pub get_int : B → Text → ℕ
  pub get_string : B → Text → Text
  pub fields : B → Dict (Field V)

-- NewPageFromRequestJSON; `none` is the error "json format error".
module _ {B V : Type 0} (json : Body B V) where
  unfoldable pub collect_fields : Dict (Field V) → PageRequest V → PageRequest V
  collect_fields [] req = req
  collect_fields ((k, v) ∷ fields) req =
      collect_fields fields
        (if is_reserved k || v.is_complex then req else put_filter k v.value req)

  unfoldable pub new_page_from_request_json : B → Option (PageRequest V)
  unfolding collect_fields
  new_page_from_request_json body =
      let req = collect_fields (json.fields body) (
        check_field (
          new_page_request (json.get_int body page_index_key) (json.get_int body page_size_key)
            (json.get_string body sort_key) none)) in
      if json.valid body
      then some (new_page_request req.page_index req.page_size req.sort_by req.filter)
      else none

module _ {V : Type 0} where
  unfoldable pub add_allow_sort_field : PageRequest V → List Text → PageRequest V
  add_allow_sort_field pr names = record pr { allow_fields = pr.allow_fields ++ names }

  abbrev pub get_limit_and_offset : PageRequest V → ℕ × ℕ
  get_limit_and_offset pr = (pr.page_size, offset pr.page_index pr.page_size)

unfoldable pub contain_string : List Text → Text → Bool
contain_string [] s = false
contain_string (e ∷ ss) s = trim_space e == trim_space s || contain_string ss s

-- What the marks at the end of an item ask for: the column, and whether it is descending.
unfoldable pub read_item : Text → Text × Bool
read_item v =
    let desc = ends_with v b'-' in
    let w = if desc then remove_all v b'-' else v in
    (if ends_with w b'+' then remove_all w b'+' else w, desc)

-- The loop of Sort over the pieces: the columns collected.
unfoldable pub db_sorts : List Text → List Text → List Text
db_sorts allow [] = []
db_sorts allow (piece ∷ sorts) =
    let v = trim_space piece in
    let (w, desc) = read_item v in
    let rest = db_sorts allow sorts in
    if is_empty v || not (contain_string allow w)
    then rest
    else (if desc then w ++ codes " DESC" else w) ∷ rest

unfoldable pub sort : {V : Type 0} → PageRequest V → Text × Bool
sort pr =
    if is_empty pr.sort_by
    then ([], false)
    else let columns = db_sorts pr.allow_fields (split pr.sort_by b',') in
      if is_empty columns then ([], false) else (join columns b',', true)
