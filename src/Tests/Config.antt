-- ===== src/Tests/Config.antt =====
-- Configurations of concrete environments.
use queue_system.Prelude.{◌≡◌, refl, String, none, some, [], ◌∷◌, str_eq, if◌then◌else◌}
use queue_system.Prelude.Chars.{split_commas}
use queue_system.Prelude.Maps.{Map, empty, set}
use queue_system.Prelude.Number.{whole_number}
use queue_system.Config.{Runtime, build_config, num, redis_url}

-- Here a blank text reads as the number 0, as `Number(' ')` does.
abbrev js0 : Runtime whole_number
js0 = record {
  number_of = λ s. if str_eq s " " then some 0 else if str_eq s "8080" then some 8080 else none;
  trim = λ s. if str_eq s " " then "" else s;
  encode_uri_component = λ s. s;
  read_file = λ f. none;
}

abbrev blank : Map String
blank = set "GATEWAYS" " , ," (set "REDIS_DB" "2" empty)

blank_gateways : (build_config js0 blank).gateways ≡ "stripe" ∷ "paypal" ∷ "adyen" ∷ []
unfolding build_config split_commas
blank_gateways = refl

redis_url_db : redis_url js0 blank ≡ "redis://127.0.0.1:6379/2"
unfolding redis_url
redis_url_db = refl

num_port : num js0 (set "PORT" "8080" empty) "PORT" 3000 ≡ 8080
unfolding num
num_port = refl

num-fallback : num js0 (set "PORT" "http" empty) "PORT" 3000 ≡ 3000
unfolding num
num-fallback = refl

num_blank : num js0 (set "PORT" " " empty) "PORT" 3000 ≡ 0
unfolding num
num_blank = refl
