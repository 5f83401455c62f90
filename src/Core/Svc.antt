-- ===== src/Core/Svc.antt =====
-- core/context.go: what a context passes on: the SvcContext for the layers below, the body, and the
-- unescaped path of a request.
use seckill_pkg.Base.{
  ℕ, ◌+◌, ◌-◌, ◌*◌, ◌≡◌, ap, Bool, false, ◌&&◌, Option, none, some, List, [], ◌∷◌, if◌then◌else◌,
  leb, eqb, Text, codes, ◌==◌, ℤ,
}
use seckill_pkg.Core.{
  Request, get_user_id, get_user_name, set_user, Auth, user, authorized, wrap_auth_handler,
}

-- What a context of the standard library can hold of the package.
pub data Value : Type 0 where
  int64 : ℤ → Value
  string : Text → Value

-- A context of the standard library: one from elsewhere, with what its Value gives, or one that was
-- made by WithValue.
pub data StdContext : Type 0 where
  elsewhere : (Text → Option Value) → StdContext
  with_value : StdContext → Text → Value → StdContext

unfoldable pub value_of : StdContext → Text → Option Value
value_of (elsewhere f) key = f key
value_of (with_value ctx k v) key =
    let parent = value_of ctx key in if k == key then some v else parent

abbrev pub user_id_key : Text
user_id_key = codes "_user_id_"

abbrev pub user_name_key : Text
user_name_key = codes "_user_name_"

-- The package cast.
pub record Cast : Type 0 where
  pub to_int64 : Option Value → ℤ
  pub to_string : Option Value → Text

-- A cast of a value to its own type gives the value.
pub record CastDocumented (cast : Cast) : Type 0 where
  pub to_int64_same : (i : ℤ) → cast.to_int64 (some (int64 i)) ≡ i
  pub to_string_same : (s : Text) → cast.to_string (some (string s)) ≡ s

pub record SvcContext : Type 0 where
  pub ctx : StdContext
  pub logger : Bool

module _ (cast : Cast) where
  unfoldable pub user_id : SvcContext → ℤ
  user_id s = cast.to_int64 (value_of (s.ctx) user_id_key)

  unfoldable pub user_name : SvcContext → Text
  user_name s = cast.to_string (value_of (s.ctx) user_name_key)

-- `ctx` is the context of the request.
unfoldable pub svc_context : {D : Type 0} → StdContext → Request D → SvcContext
svc_context ctx c = record {
  ctx =
      with_value (with_value ctx user_id_key (int64 (get_user_id c))) user_name_key
        (string (get_user_name c));
  logger = c.logger;
}

-- A body that is read: its bytes, and whether the reader fails after them.
pub record RequestBody : Type 0 where
  pub bytes : List ℕ
  pub fails : Bool

-- RequestData; an error is dropped.
unfoldable pub request_data : RequestBody → List ℕ × RequestBody
request_data b = (b.bytes, record { bytes = b.bytes; fails = false })

-- url.QueryUnescape: `none` is its error.
abbrev hex_value : ℕ → Option ℕ
hex_value c =
    if leb 48 c && leb c 57
    then some (c - 48)
    else if leb 97 c && leb c 102
    then some (c - 87)
    else if leb 65 c && leb c 70
    then some (c - 55)
    else none

abbrev byte_of : Option ℕ → Option ℕ → Option Text → Option Text
byte_of (some a) (some b) (some rest) = some ((a * 16 + b) ∷ rest)
byte_of (some a) (some b) none = none
byte_of (some a) none rest = none
byte_of none b rest = none

abbrev put : ℕ → Option Text → Option Text
put c none = none
put c (some rest) = some (c ∷ rest)

unfoldable pub query_unescape : Text → Option Text
query_unescape [] = some []
query_unescape (c ∷ []) = if eqb c 37 then none else put (if eqb c 43 then 32 else c) (some [])
query_unescape (c ∷ (d ∷ [])) =
    let rest = query_unescape (d ∷ []) in
    if eqb c 37 then none else put (if eqb c 43 then 32 else c) rest
query_unescape (c ∷ (d ∷ (e ∷ more))) =
    let rest = query_unescape (d ∷ (e ∷ more)) in
    let after = query_unescape more in
    if eqb c 37
    then byte_of (hex_value d) (hex_value e) after
    else put (if eqb c 43 then 32 else c) rest

abbrev or_empty : Option Text → Text
or_empty none = []
or_empty (some t) = t

-- URI, of the path of the request's URL; the error is dropped.
unfoldable pub uri : Text → Text
uri path = or_empty (query_unescape path)

-- The layers below get the user that the request has, whatever values its context holds.
svc_user :
    {D : Type 0} (cast : Cast) (doc : CastDocumented cast) (ctx : StdContext) (c : Request D)
    → (user_id cast (svc_context ctx c) ≡ get_user_id c)
      × (user_name cast (svc_context ctx c) ≡ get_user_name c)
unfolding user_id user_name svc_context value_of ◌==◌
svc_user cast doc ctx c = (doc.to_int64_same (get_user_id c), doc.to_string_same (get_user_name c))

-- When a handler behind WrapAuthHandler runs, the layers below get the user and the name that
-- the authorization gave, whatever the request and its context held before.
pub svc_user_of_auth :
    {D : Type 0} (cast : Cast) (handler : Request D → Auth) (ctx : StdContext) (c : Request D)
    (i : ℤ) (n : Text)
    → CastDocumented cast
    → handler c ≡ user i n
    → (d : Request D) × (wrap_auth_handler handler c ≡ some d)
      × (user_id cast (svc_context ctx d) ≡ i)
      × (user_name cast (svc_context ctx d) ≡ n)
unfolding wrap_auth_handler set_user get_user_id get_user_name
svc_user_of_auth cast handler ctx c i n doc e =
    let s = svc_user cast doc ctx (set_user c i n) in
    (set_user c i n, ap (authorized c) e, s.0, s.1)
