-- ===== src/Jwt/Keys.antt =====
-- Which keys the map of configurations of backend/pkg/utils/jwtutils/jwt.go hands out.
use tasktify.Prelude.{
  String, Option, none, some, [], ◌∷◌, Result, ok, err, panic, ◌>>=◌, str_eq, ◌≡◌, inl, inr, refl,
  ap, arith, eq_iff, In, Bool-cases, Option-cases, ok-injective,
}
use tasktify.External.Jwt.{SigningMethod}
use tasktify.Jwt.Multi.{AlgConfig, Configs, config_for_header_alg, key_for, verify_key_of}

-- The configuration that verifies a token: one of those configured, with the token's algorithm.
pub record IsKeyOf {Key : Type 0} (configs : Configs Key) (alg : String) (key : Option Key)
    : Type 0 where
  pub name : String
  pub config : AlgConfig Key
  pub method : SigningMethod Key
  pub configured : In (name, some config) configs
  pub has_method : config.method ≡ some method
  pub same_alg : method.alg ≡ alg
  pub its_key : config.verify_key ≡ key

weaken :
    {Key : Type 0} {entry : String × Option (AlgConfig Key)} {configs : Configs Key} {alg : String}
    {key : Option Key}
    → IsKeyOf configs alg key
    → IsKeyOf (entry ∷ configs) alg key
weaken k = record {
  name = k.name;
  config = k.config;
  method = k.method;
  configured = inr k.configured;
  has_method = k.has_method;
  same_alg = k.same_alg;
  its_key = k.its_key;
}

config_for_header_alg_sound :
    {Key : Type 0} (configs : Configs Key) (alg : String) (cfg : AlgConfig Key)
    → config_for_header_alg configs alg ≡ ok (some cfg)
    → IsKeyOf configs alg cfg.verify_key
unfolding config_for_header_alg
config_for_header_alg_sound [] alg cfg e = cc
config_for_header_alg_sound ((name, none) ∷ configs) alg cfg e = cc
config_for_header_alg_sound ((name, some c) ∷ configs) alg cfg e = elim (Option-cases c.method) [
  | inl no_method ↦ absurd (ground arith)
  | inr (m, has) ↦ elim (Bool-cases (str_eq m.alg alg)) [
    | inl same ↦
        let here : c ≡ cfg = ground arith in
        record {
          name = name;
          config = c;
          method = m;
          configured = inl refl;
          has_method = has;
          same_alg = (eq_iff m.alg alg).0 same;
          its_key = ap (λ (x : AlgConfig _). x.verify_key) here;
        }
    | inr different ↦ weaken (config_for_header_alg_sound configs alg cfg (ground arith))
  ]
]

key_for-found :
    {Key : Type 0} (r : Result (Option (AlgConfig Key))) {key : Option Key}
    → (r >>= verify_key_of) ≡ ok key
    → (cfg : AlgConfig Key) × (r ≡ ok (some cfg)) × (cfg.verify_key ≡ key)
unfolding verify_key_of
key_for-found (ok (some cfg)) e = (cfg, refl, ok-injective e)
key_for-found (ok none) e = cc
key_for-found (err _) e = cc
key_for-found panic e = cc

-- The key function of Parse hands out only keys of configurations with the token's algorithm.
pub key_for_sound :
    {Key : Type 0} (configs : Configs Key) (alg : String) (key : Option Key)
    → key_for configs alg ≡ ok key
    → IsKeyOf configs alg key
unfolding key_for
key_for_sound configs alg key e =
    let (cfg, found, same) = key_for-found (config_for_header_alg configs alg) e in
    rw (← same) (config_for_header_alg_sound configs alg cfg found)
