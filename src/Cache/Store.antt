-- ===== src/Cache/Store.antt =====
-- cache/redis.go: a server whose keys stand in a map, which does what the documentation says.
use seckill_pkg.Base.{◌≡◌, ap, sym, ◌∙◌, true, Option, none, some, arith, Text, ==_iff, is_some}
use seckill_pkg.Base.Dict.{
  Dict, lookup, insert, erase, lookup-insert, lookup-insert_self, lookup-erase_self,
}
use seckill_pkg.Cache.{Got, value, nil, Client, Documented}

abbrev pub got_of : Option Text → Got
got_of none = nil
got_of (some v) = value v

abbrev pub map_client : Client (Dict Text)
map_client = record {
  set_key = λ s k v ttl. (insert k v s, true);
  get_key = λ s k. got_of (lookup k s);
  del_key = λ s k. (erase k s, is_some (lookup k s));
}

pub map-Documented : Documented map_client
map-Documented = record {
  get-set = λ s s2 k v ttl e.
      let same : insert k v s ≡ s2 = cc in
      ap (λ m. got_of (lookup k m)) (sym same) ∙ ap got_of (lookup-insert_self k v s);
  get-set_other = λ s s2 k j v ttl e n.
      let same : insert k v s ≡ s2 = cc in
      ap (λ m. got_of (lookup j m)) (sym same)
      ∙ ap got_of (lookup-insert k j v s ∙ ground (arith, ==_iff k j));
  get-del = λ s s2 k e.
      let same : erase k s ≡ s2 = cc in
      ap (λ m. got_of (lookup k m)) (sym same) ∙ ap got_of (lookup-erase_self k s);
}
