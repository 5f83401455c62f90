-- ===== src/Page/Request.antt =====
-- What NewPageFromRequest and NewPageFromRequestJSON make of a request: page numbers that are not
-- zero, and a Filter that holds the other keys and none of the reserved ones.
use seckill_pkg.Base.{
  ℕ, ◌≡◌, refl, ap, ◌⊎◌, ◌∙◌, inl, inr, true, false, ◌||◌, Option, none, some, List, [], ◌∷◌, arith,
  Text, ==_iff, mem, Distinct, eqb, if◌then◌else◌, Bool-cases,
}
use seckill_pkg.Base.Dict
use seckill_pkg.Base.Dict.{Dict}
use seckill_pkg.Page.{
  PageRequest, new_page_request, check_field, make_filter, put_filter, is_reserved, form_get,
  page_index_key, page_size_key, sort_key, collect_form, new_page_from_request, Field, Body,
  collect_fields, new_page_from_request_json,
}

abbrev pub keys : {A : Type 0} → Dict A → List Text
keys [] = []
keys ((k, v) ∷ m) = k ∷ keys m

lookup_of_missing :
    {A : Type 0} (k : Text) (m : Dict A) → mem k (keys m) ≡ false → Dict.lookup k m ≡ none
unfolding Dict.lookup
lookup_of_missing k [] h = refl
lookup_of_missing k ((j, v) ∷ m) h = ground (arith, lookup_of_missing k m, ==_iff j k)

-- The default that checkField puts for a zero.
abbrev pub or_default : ℕ → ℕ → ℕ
or_default n d = if eqb n 0 then d else n

-- What the requests of both kinds have in common: the numbers, the sort and no allowed fields.
pub record IsRequest {V : Type 0} (pi ps : ℕ) (sort : Text) (req : PageRequest V) : Type 0 where
  pub page_index : req.page_index ≡ or_default pi 1
  pub page_size : req.page_size ≡ or_default ps 10
  pub sort_by : req.sort_by ≡ sort
  pub allow_fields : req.allow_fields ≡ []

abbrev pub filter_at : {V : Type 0} → Text → PageRequest V → Option V
filter_at k req = Dict.lookup k (make_filter req.filter)

-- A value of the request, or what was there before.
abbrev pub over : {V : Type 0} → Option V → Option V → Option V
over none old = old
over (some v) old = some v

over-none : {V : Type 0} (o : Option V) → over o none ≡ o
over-none none = refl
over-none (some v) = refl

checked-IsRequest :
    {V : Type 0} (pi ps : ℕ) (sort : Text)
    → IsRequest pi ps sort (check_field (new_page_request {V = V} pi ps sort none))
unfolding check_field
checked-IsRequest pi ps sort = record {
  page_index = refl;
  page_size = refl;
  sort_by = refl;
  allow_fields = refl;
}

checked_filter :
    {V : Type 0} (pi ps : ℕ) (sort k : Text)
    → filter_at k (check_field (new_page_request {V = V} pi ps sort none)) ≡ none
unfolding check_field Dict.lookup
checked_filter pi ps sort k = refl

module _ {V : Type 0} (of_text : Text → V) where
  -- What a form says of a key that is not reserved: its first value.
  pub form_value : Text → Dict (List Text) → Option V
  form_value k form = if is_reserved k then none else elim (Dict.lookup k form) [
    | none ↦ none
    | some l ↦ elim l [ [] ↦ none | v ∷ vs ↦ some (of_text v) ]
  ]

module _ {V : Type 0} (to_int : Text → ℕ) (to_string : Text → Text) (of_text : Text → V) where
  collect_form-IsRequest :
      {pi ps : ℕ} {s : Text} (form : Dict (List Text)) (req : PageRequest V)
      → IsRequest pi ps s req
      → IsRequest pi ps s (collect_form to_int to_string of_text form req)
  unfolding collect_form
  collect_form-IsRequest [] req h = h
  collect_form-IsRequest ((k, []) ∷ form) req h = collect_form-IsRequest form req h
  collect_form-IsRequest ((k, v ∷ vs) ∷ form) req h = elim (Bool-cases (is_reserved k)) [
    | inl yes_reserved ↦ rw yes_reserved (collect_form-IsRequest form req h)
    | inr free ↦ rw free (
        collect_form-IsRequest form (put_filter k (of_text v) req) (record {
          page_index = h.page_index;
          page_size = h.page_size;
          sort_by = h.sort_by;
          allow_fields = h.allow_fields;
        }))
  ]

  collect_form_filter :
      (k : Text) (form : Dict (List Text)) (req : PageRequest V)
      → Distinct (keys form)
      → filter_at k (collect_form to_int to_string of_text form req)
        ≡ over (form_value of_text k form) (filter_at k req)
  unfolding collect_form form_value Dict.lookup
  collect_form_filter k [] req d = ground arith
  collect_form_filter k ((j, []) ∷ form) req (n, d) =
      ground (arith, ==_iff j k, collect_form_filter k form req d, lookup_of_missing j form n)
  collect_form_filter k ((j, v ∷ vs) ∷ form) req (n, d) = elim (Bool-cases (is_reserved j)) [
    | inl held ↦
        rw (held, collect_form)
          (ground
            (arith, held, ==_iff j k, collect_form_filter k form req d, lookup_of_missing j form n))
    | inr free ↦
        rw (free, collect_form)
          (ground (
            arith,
            free,
            ==_iff j k,
            collect_form_filter k form (put_filter j (of_text v) req) d,
            Dict.lookup-insert j k (of_text v) (make_filter req.filter),
            lookup_of_missing j form n,
          ))
  ]

  -- A request read from a form has its page numbers, with 1 and 10 for zeros, its sort, and in
  -- its Filter exactly the first values of the keys that are not reserved.
  pub new_page_from_request_lem :
      (form : Dict (List Text))
      → Distinct (keys form)
      → IsRequest
          (to_int (form_get page_index_key form))
          (to_int (form_get page_size_key form))
          (to_string (form_get sort_key form))
          (new_page_from_request to_int to_string of_text form)
        × ((k : Text)
            → filter_at k (new_page_from_request to_int to_string of_text form)
              ≡ form_value of_text k form)
  unfolding new_page_from_request
  new_page_from_request_lem form d =
      let pi = to_int (form_get page_index_key form) in
      let ps = to_int (form_get page_size_key form) in
      let s = to_string (form_get sort_key form) in
      let req = check_field (new_page_request {V = V} pi ps s none) in
      (
        collect_form-IsRequest form req (checked-IsRequest pi ps s),
        λ k.
            collect_form_filter k form req d
            ∙ ap (over (form_value of_text k form)) (checked_filter pi ps s k)
            ∙ over-none (form_value of_text k form),
      )

module _ {B V : Type 0} (json : Body B V) where
  -- What a JSON body says of a key that is not reserved: its value, unless it is null or complex.
  pub json_value : Text → Dict (Field V) → Option V
  json_value k fields = if is_reserved k then none else elim (Dict.lookup k fields) [
    | none ↦ none
    | some f ↦ if f.is_complex then none else some f.value
  ]

  collect_fields-IsRequest :
      {pi ps : ℕ} {s : Text} (fields : Dict (Field V)) (req : PageRequest V)
      → IsRequest pi ps s req
      → IsRequest pi ps s (collect_fields json fields req)
  unfolding collect_fields
  collect_fields-IsRequest [] req h = h
  collect_fields-IsRequest ((k, v) ∷ fields) req h =
      elim (Bool-cases (is_reserved k || v.is_complex)) [
        | inl held ↦ rw held (collect_fields-IsRequest fields req h)
        | inr free ↦ rw free (
            collect_fields-IsRequest fields (put_filter k v.value req) (record {
              page_index = h.page_index;
              page_size = h.page_size;
              sort_by = h.sort_by;
              allow_fields = h.allow_fields;
            }))
      ]

  collect_fields_filter :
      (k : Text) (fields : Dict (Field V)) (req : PageRequest V)
      → Distinct (keys fields)
      → filter_at k (collect_fields json fields req) ≡ over (json_value k fields) (filter_at k req)
  unfolding collect_fields json_value Dict.lookup
  collect_fields_filter k [] req d = ground arith
  collect_fields_filter k ((j, v) ∷ fields) req (n, d) =
      elim (Bool-cases (is_reserved j || v.is_complex)) [
        | inl held ↦
            rw (held, collect_fields)
              (ground (
                arith,
                held,
                ==_iff j k,
                collect_fields_filter k fields req d,
                lookup_of_missing j fields n,
              ))
        | inr free ↦
            rw (free, collect_fields)
              (ground (
                arith,
                free,
                ==_iff j k,
                collect_fields_filter k fields (put_filter j v.value req) d,
                Dict.lookup-insert j k v.value (make_filter req.filter),
                lookup_of_missing j fields n,
              ))
      ]

  -- A body that is no JSON is refused; any other, its keys distinct, is read like a form, its
  -- Filter holding exactly the plain values of the keys that are not reserved.
  pub new_page_from_request_json_lem :
      (body : B)
      → Distinct (keys (json.fields body))
      → ((json.valid body ≡ false) × (new_page_from_request_json json body ≡ none))
        ⊎ ((json.valid body ≡ true)
            × ((req : PageRequest V) × (new_page_from_request_json json body ≡ some req)
                × IsRequest
                    (json.get_int body page_index_key)
                    (json.get_int body page_size_key)
                    (json.get_string body sort_key)
                    req
                × ((k : Text) → filter_at k req ≡ json_value k (json.fields body))))
  unfolding new_page_from_request_json
  new_page_from_request_json_lem body d = elim (Bool-cases (json.valid body)) [
    | inr broken ↦ inl (broken, rw broken)
    | inl fine ↦
        let pi = json.get_int body page_index_key in
        let ps = json.get_int body page_size_key in
        let s = json.get_string body sort_key in
        let start = check_field (new_page_request {V = V} pi ps s none) in
        let req = collect_fields json (json.fields body) start in
        let same = collect_fields-IsRequest (json.fields body) start (checked-IsRequest pi ps s) in
        inr (
          fine,
          (
            new_page_request req.page_index req.page_size req.sort_by req.filter,
            rw fine,
            record {
              page_index = same.page_index;
              page_size = same.page_size;
              sort_by = same.sort_by;
              allow_fields = refl;
            },
            λ k.
                collect_fields_filter k (json.fields body) start d
                ∙ ap (over (json_value k (json.fields body))) (checked_filter pi ps s k)
                ∙ over-none (json_value k (json.fields body)),
          ),
        )
  ]
