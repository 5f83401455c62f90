-- ===== src/Login/Tests.antt =====
-- The login systems at concrete inputs: a server of keys in a map, tokens that are their claims in
-- plain, a HMAC that gives the message, and claims in place of their JSON.
use seckill_pkg.Base.{
  zero, suc, ◌≡◌, ◌⊎◌, refl, true, some, [], ◌∷◌, ◌++◌, Text, codes, ◌==◌, ℤ, pos, negsuc,
  decimal_int, decimal, digits,
}
use seckill_pkg.Base.Dict.{Dict, lookup, insert, erase}
use seckill_pkg.Encrypt.Hex.{hex_encode}
use seckill_pkg.Cache.{del}
use seckill_pkg.Cache.Store.{map_client, map-Documented}
use seckill_pkg.Token.{jwt_sign, jwt_parse, jwt_parse_unsafe, parsed}
use seckill_pkg.Token.Plain.{plain_jwt, int_code, ann, ann_token, plain_reads}
use seckill_pkg.Login.{
  answer, fails, refresh_token_expired, LoginConfig, RefreshResponse, Libraries,
}
use seckill_pkg.Login.RefreshTokenSystem as R
use seckill_pkg.Login.RefreshTokenSystem.Laws.{
  refresh_token-generate_token, refresh_keeps_old_token, refresh_token-token_cancel,
  refresh_token-token_cancel_by_id,
}
use seckill_pkg.Login.BlackListSystem as B
use seckill_pkg.Login.BlackListSystem.Laws.{
  SameUser, check-token_cancel_by_id, check-token_cancel, check-refresh_token,
}

abbrev read_user : Text → ℤ × Text
read_user (zero ∷ n ∷ s) = (pos n, s)
read_user (suc _ ∷ n ∷ s) = (negsuc n, s)
read_user _ = (pos 0, [])

abbrev plain : Libraries
plain = record { jwt = plain_jwt; hmac = λ secret m. m; marshal = int_code; unmarshal = read_user }

abbrev config : LoginConfig
config = record {
  secret = codes "secret";
  expire_duration = 10000000000;
  refresh_duration = 20000000000;
}

-- The response to user 7 at 10 seconds, and the map after it.
abbrev first : RefreshResponse
first = record { access_token = ann_token; refresh_token = hex_encode (codes "7_ann") }

abbrev after_first : Dict Text
after_first = (codes "sk:refresh:" ++ first.refresh_token, int_code (pos 7) (codes "ann")) ∷ []

generated :
    R.generate_token map_client plain config 10000000000 [] (pos 7) (codes "ann")
    ≡ (after_first, answer first)
unfolding R.generate_token R.generate_refresh_token jwt_sign insert decimal_int decimal digits
    hex_encode
generated = refl

refresh_token-generate_token_example :
    R.refresh_token map_client plain config 0 after_first (first.refresh_token)
    ≡ R.generate_token map_client plain config 0
        (R.token_cancel map_client plain config after_first (first.refresh_token))
        (pos 7)
        (codes "ann")
refresh_token-generate_token_example =
    refresh_token-generate_token map_client map-Documented plain config 10000000000 0 [] after_first
      (pos 7) (codes "ann") first generated refl

refreshed :
    R.refresh_token map_client plain config 10000000000 after_first (first.refresh_token)
    ≡ (after_first, answer first)
unfolding R.refresh_token R.token_cancel R.generate_token R.generate_refresh_token jwt_sign insert
    erase lookup ◌==◌ decimal_int decimal digits hex_encode
refreshed = refl

refresh_keeps_old_token_example :
    (first.refresh_token ≡ first.refresh_token)
    × (R.refresh_token map_client plain config 5 after_first (first.refresh_token)
        ≡ R.generate_token map_client plain config 5
            (R.token_cancel map_client plain config after_first (first.refresh_token))
            (pos 7)
            (codes "ann"))
refresh_keeps_old_token_example =
    refresh_keeps_old_token map_client map-Documented plain config 10000000000 10000000000 5 []
      after_first after_first (pos 7) (codes "ann") first first generated refl refreshed

deleted :
    (del map_client after_first (R.refresh_key map_client plain config (first.refresh_token))).1
    ≡ true
unfolding lookup ◌==◌ hex_encode
deleted = refl

refresh_token-token_cancel_example :
    R.refresh_token map_client plain config 0
      (R.token_cancel map_client plain config after_first (first.refresh_token))
      (first.refresh_token)
    ≡ (
      R.token_cancel map_client plain config after_first (first.refresh_token),
      fails refresh_token_expired,
    )
refresh_token-token_cancel_example =
    refresh_token-token_cancel map_client map-Documented plain config 0 after_first
      (first.refresh_token) deleted

same_token :
    R.generate_refresh_token map_client plain config (pos 7) (codes "ann") ≡ first.refresh_token
unfolding R.generate_refresh_token decimal_int decimal digits
same_token = refl

deleted_by_id :
    (del map_client after_first (
      R.refresh_key map_client plain config
        (R.generate_refresh_token map_client plain config (pos 7) (codes "ann")))).1
    ≡ true
deleted_by_id = rw same_token deleted

refresh_token-token_cancel_by_id_example :
    R.refresh_token map_client plain config 0
      (R.token_cancel_by_id map_client plain config after_first (pos 7) (codes "ann"))
      (first.refresh_token)
    ≡ (
      R.token_cancel_by_id map_client plain config after_first (pos 7) (codes "ann"),
      fails refresh_token_expired,
    )
refresh_token-token_cancel_by_id_example =
    refresh_token-token_cancel_by_id map_client map-Documented plain config 10000000000 0 []
      after_first (pos 7) (codes "ann") first generated deleted_by_id

-- The state after user 7 was cancelled.
abbrev listed : Dict Text
listed = (codes "sk:black_list:_7_ann", codes "1") ∷ []

cancelled : B.token_cancel_by_id map_client plain config [] (pos 7) (codes "ann") ≡ (listed, true)
unfolding B.token_cancel_by_id B.black_list_key insert decimal_int decimal digits
cancelled = refl

reads_ann : jwt_parse_unsafe plain_jwt ann_token ≡ some ann
unfolding jwt_parse_unsafe
reads_ann = refl

check-token_cancel_by_id_example :
    (SameUser ann (pos 7) (codes "ann")
      × (B.check_black_list map_client plain config listed ann_token ≡ answer true))
    ⊎ (¬ SameUser ann (pos 7) (codes "ann")
        × (B.check_black_list map_client plain config listed ann_token
            ≡ B.check_black_list map_client plain config [] ann_token))
check-token_cancel_by_id_example =
    check-token_cancel_by_id map_client map-Documented plain config [] listed (pos 7) (codes "ann")
      ann_token ann cancelled reads_ann

takes_ann : jwt_parse plain_jwt (codes "secret") ann_token ≡ parsed ann
unfolding jwt_parse
takes_ann = refl

cancelled_token : B.token_cancel map_client plain config [] ann_token ≡ (listed, true)
unfolding B.token_cancel B.black_list_key jwt_parse insert decimal_int decimal digits
cancelled_token = refl

check-token_cancel_example :
    B.check_black_list map_client plain config listed ann_token ≡ answer true
check-token_cancel_example =
    check-token_cancel map_client map-Documented plain config [] listed ann_token ann_token ann ann
      takes_ann cancelled_token reads_ann refl refl

refreshed_token : B.refresh_token map_client plain config 10000000000 ann_token ≡ answer ann_token
unfolding B.refresh_token B.generate_token jwt_sign jwt_parse_unsafe
refreshed_token = refl

check-refresh_token_example :
    B.check_black_list map_client plain config listed ann_token ≡ answer true
check-refresh_token_example =
    check-refresh_token map_client map-Documented plain config 10000000000 [] listed ann_token
      ann_token ann plain_reads reads_ann cancelled refreshed_token
