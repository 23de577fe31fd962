-- ===== src/Config/Gateways.antt =====
-- app-config.ts: the gateways of a configuration.
use queue_system.Prelude.{
  arith, ◌≤◌, ◌≡◌, refl, false, String, List, [], ◌∷◌, All, length, str_eq, filter_by, map, not,
  or_else,
}
use queue_system.Prelude.Chars.{split_commas}
use queue_system.Prelude.Maps.{Map}
use queue_system.Prelude.Number.{Number}
use queue_system.Config.{Runtime, build_config, or_defaults, gateway_names}

-- No name is empty.
abbrev pub Named : List String → Type 0
Named = All (λ g. str_eq g "" ≡ false)

filter_by-Named : (gs : List String) → Named (filter_by (λ g. not (str_eq g "")) gs)
filter_by-Named [] = tt
filter_by-Named (g ∷ gs) = ground (arith, filter_by-Named gs)

or_defaults-Named :
    (gs : List String) → Named gs → (1 ≤ length (or_defaults gs)) × Named (or_defaults gs)
or_defaults-Named [] h = (omega arith, (refl, (refl, (refl, tt))))
or_defaults-Named (g ∷ gs) h = (omega arith, h)

module _ {N : Number} (js : Runtime N) (env : Map String) where
  -- Whatever the environment says, a configuration names at least one gateway, and none of the names is
  -- empty.
  pub build_config-gateways :
      let gateways = (build_config js env).gateways in (1 ≤ length gateways) × Named gateways
  unfolding build_config gateway_names
  build_config-gateways =
      let words = map js.trim (split_commas (or_else (env "GATEWAYS") "stripe,paypal,adyen")) in
      or_defaults-Named (filter_by (λ g. not (str_eq g "")) words) (filter_by-Named words)
