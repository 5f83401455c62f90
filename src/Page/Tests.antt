-- ===== src/Page/Tests.antt =====
-- Runs of the paging helpers, and the theorems at concrete requests.
use seckill_pkg.Base.{
  ℕ, ◌+◌, ◌-◌, ◌/◌, ◌%◌, ◌≤◌, ◌<◌, ◌↔◌, ◌≡◌, refl, ◌⊎◌, ◌≢◌, true, false, none, some, List, [], ◌∷◌,
  map, arith, Text, codes, ◌==◌, All, is_space, trim_space, split, join, ends_with, remove_all,
}
use seckill_pkg.Base.Dict.{Dict}
use seckill_pkg.Page.{
  word, offset, PageRequest, sort, contain_string, read_item, db_sorts, new_page_from_request,
  form_get, page_index_key, page_size_key, sort_key, Body, Field, new_page_from_request_json,
}
use seckill_pkg.Page.Offset.{row_on_one_page, next_page}
use seckill_pkg.Page.Request.{
  IsRequest, filter_at, form_value, json_value, new_page_from_request_lem,
  new_page_from_request_json_lem,
}
use seckill_pkg.Page.Whitelist.{IsColumn, sort_allowed}
use seckill_pkg.Page.Columns.{Item, plus, minus, column, sort_written}

abbrev request : Text → PageRequest ℕ
request s = record {
  page_index = 1;
  page_size = 10;
  sort_by = s;
  filter = none;
  allow_fields = codes "id" ∷ codes " create_time" ∷ [];
}

sort_runs : sort (request (codes "id+, create_time-,drop")) ≡ (codes "id,create_time DESC", true)
unfolding sort db_sorts read_item contain_string trim_space is_space split join ends_with remove_all
    ◌==◌
sort_runs = refl

row_on_one_page_example :
    ((offset 3 10 ≤ 25) × (25 < offset 3 10 + 10)) ↔ ◌≡◌ {A = ℕ} 3 (25 / 10 + 1)
row_on_one_page_example =
    row_on_one_page 25 10 3 (omega arith) (omega arith) (omega arith) (omega arith)

next_page_example : offset ((word - 1 + 1) % word) 7 ≡ (offset (word - 1) 7 + 7) % word
next_page_example = next_page (word - 1) 7 (omega arith)

abbrev items : List Item
items = (codes "id", plus) ∷ (codes "create_time", minus) ∷ []

sort_written_example :
    sort (request (codes "id+,create_time-")) ≡ (join (map column items) b',', true)
unfolding join contain_string trim_space is_space ◌==◌
sort_written_example =
    sort_written (request (codes "id+,create_time-")) (codes "id", plus)
      ((codes "create_time", minus) ∷ []) refl (ground arith)

sort_allowed_example :
    (sort (request (codes "x")) ≡ ([], false))
    ⊎ ((columns : List Text) × (sort (request (codes "x")) ≡ (join columns b',', true))
        × (columns ≢ [])
        × All (IsColumn (codes "id" ∷ codes " create_time" ∷ [])) columns)
sort_allowed_example = sort_allowed (request (codes "x"))

abbrev form : Dict (List Text)
form =
    (codes "page_index", (codes "3" ∷ [])) ∷ (codes "name", (codes "ann" ∷ codes "bob" ∷ [])) ∷ []

-- An integer parser for the examples: the text's first digit.
abbrev first_digit : Text → ℕ
first_digit [] = 0
first_digit (c ∷ s) = c - 48

new_page_from_request_example :
    IsRequest
      (first_digit (form_get page_index_key form))
      (first_digit (form_get page_size_key form))
      (form_get sort_key form)
      (new_page_from_request first_digit (λ t. t) (λ t. t) form)
    × ((k : Text)
        → filter_at k (new_page_from_request first_digit (λ t. t) (λ t. t) form)
          ≡ form_value (λ t. t) k form)
unfolding ◌==◌
new_page_from_request_example =
    new_page_from_request_lem first_digit (λ t. t) (λ t. t) form (ground arith)

-- Bodies that are their fields: a number for each key, and none of them JSON or Null.
abbrev plain_body : Body (Dict (Field ℕ)) ℕ
plain_body = record {
  valid = λ b. true;
  get_int = λ b k. 2;
  get_string = λ b k. codes "id";
  fields = λ b. b;
}

abbrev small_body : Dict (Field ℕ)
small_body = (codes "age", record { is_complex = false; value = 7 }) ∷ []

new_page_from_request_json_example :
    ((plain_body.valid small_body ≡ false)
      × (new_page_from_request_json plain_body small_body ≡ none))
    ⊎ ((plain_body.valid small_body ≡ true)
        × ((req : PageRequest ℕ) × (new_page_from_request_json plain_body small_body ≡ some req)
            × IsRequest
                (plain_body.get_int small_body page_index_key)
                (plain_body.get_int small_body page_size_key)
                (plain_body.get_string small_body sort_key)
                req
            × ((k : Text)
                → filter_at k req ≡ json_value plain_body k (plain_body.fields small_body))))
new_page_from_request_json_example = new_page_from_request_json_lem plain_body small_body (refl, tt)
