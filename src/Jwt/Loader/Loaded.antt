-- ===== src/Jwt/Loader/Loaded.antt =====
-- What LoadAllAlgConfigs of backend/pkg/utils/jwtutils/loader.go fills its map with.
use tasktify.Prelude.{
  ◌↔◌, ◌⊎◌, ◌≡◌, refl, sym, ap, ◌∙◌, String, Option, some, some-injective, List, [], ◌∷◌, Bool,
  false, Result, ok, insert, In, inl, inr, str_eq, Bool-cases, Ensures, Ensures-ok, Ensures-step,
  eq_iff, subst, ok-injective,
}
use tasktify.External.Jwt.{SigningMethod, Bytes}
use tasktify.Jwt.Claims.{header_alg_for_config_alg}
use tasktify.Jwt.Multi.{AlgConfig, Configs, key_for}
use tasktify.Jwt.Keys.{IsKeyOf}
use tasktify.Jwt.KeyOrder.{IsUniform, Usables, key_for-order, key_for-own}
use tasktify.Jwt.Loader.{KeyLib, load_alg_config, load_from, load_all_alg_configs}
use tasktify.Jwt.Loader.Agreement.{verify_key_in, load_alg_config-key}
use tasktify.Jwt.Loader.Methods.{HasNames, load_alg_config-HasMethod}

-- An entry after an insertion is the new one, or was there.
pub insert-In :
    {V : Type 0} (k : String) (v : V) (m : List (String × V)) (e : String × V)
    → In e (insert k v m)
    → (e ≡ (k, v)) ⊎ In e m
unfolding insert
insert-In k v [] e i = i
insert-In k v ((j, w) ∷ m) e i = elim (Bool-cases (str_eq j k)) [
  | inl same ↦ elim (rw (same, insert) at i) [
    | inl here ↦ inl (here ∙ ap (λ (n : String). (n, v)) ((eq_iff j k).0 same))
    | inr rest ↦ inr (inr rest)
  ]
  | inr other ↦ elim (rw (other, insert) at i) [
    | inl here ↦ inr (inl here)
    | inr rest ↦ elim (insert-In k v m e rest) [ inl new ↦ inl new | inr old ↦ inr (inr old) ]
  ]
]

module _ {Key : Type 0} (k : KeyLib Key) (dir : String → Result Bytes) (mode : Bool) where
  -- Every entry is a configuration that LoadAlgConfig has loaded under its name.
  abbrev pub AllLoaded : Configs Key → Type 0
  AllLoaded configs =
      (e : String × Option (AlgConfig Key))
      → In e configs
      → (cfg : AlgConfig Key) × (e.1 ≡ some cfg) × (load_alg_config k dir e.0 mode ≡ ok cfg)

  insert-AllLoaded :
      (name : String) (cfg : AlgConfig Key) (configs : Configs Key)
      → load_alg_config k dir name mode ≡ ok cfg
      → AllLoaded configs
      → AllLoaded (insert name (some cfg) configs)
  insert-AllLoaded name cfg configs loaded all e i = elim (insert-In name (some cfg) configs e i) [
    | inl new ↦ rw new (cfg, refl, loaded)
    | inr old ↦ all e old
  ]

  load_from-AllLoaded :
      (configs : Configs Key) (algs : List String)
      → AllLoaded configs
      → Ensures AllLoaded (load_from k dir configs algs mode)
  unfolding load_from
  load_from-AllLoaded configs [] all = Ensures-ok configs all
  load_from-AllLoaded configs (alg ∷ algs) all =
      Ensures-step _ (load_alg_config k dir alg mode) _ λ cfg p.
        load_from-AllLoaded (insert alg (some cfg) configs) algs
          (insert-AllLoaded alg cfg configs p all)

  pub all_loaded :
      (algs : List String) (configs : Configs Key)
      → load_all_alg_configs k dir algs mode ≡ ok configs
      → AllLoaded configs
  unfolding load_all_alg_configs
  all_loaded algs configs = (load_from-AllLoaded [] algs (λ e i. elim i [ ])).at configs

  module _ (names : HasNames k) where
    -- The key of an algorithm is the one that the algorithm's own name loads.
    key-header :
        (configs : Configs Key) (alg : String) (key : Option Key)
        → AllLoaded configs
        → IsKeyOf configs alg key
        → verify_key_in k dir (load_alg_config k dir alg false) ≡ ok key
    key-header configs alg key all i =
        let (cfg, is, loaded) = all (i.name, some i.config) i.configured in
        let same : i.config ≡ cfg = some-injective _ _ is in
        let (m, has, named) = load_alg_config-HasMethod k dir names i.name mode cfg loaded in
        let method≡ : i.method ≡ m =
          some-injective _ _ (sym i.has_method ∙ ap (λ (c : AlgConfig Key). c.method) same ∙ has) in
        let header : header_alg_for_config_alg i.name ≡ alg =
          sym named ∙ ap (λ (x : SigningMethod Key). x.alg) (sym method≡) ∙ i.same_alg in
        subst (λ a. verify_key_in k dir (load_alg_config k dir a false) ≡ ok key) header
          (load_alg_config-key k dir i.name mode cfg loaded
            ∙ ap ok (ap (λ (c : AlgConfig Key). c.verify_key) (sym same) ∙ i.its_key))

    -- In the map that LoadAllAlgConfigs returns no configuration and no method is nil, and all
    -- configurations whose tokens show one algorithm verify with one key; so the order in which Go
    -- visits the map does not matter for verification.
    load_all_alg_configs_lem :
        (algs : List String) (configs : Configs Key)
        → load_all_alg_configs k dir algs mode ≡ ok configs
        → Usables configs × IsUniform configs
    load_all_alg_configs_lem algs configs e =
        let all = all_loaded algs configs e in
        (
          (λ entry i.
              let (cfg, is, loaded) = all entry i in
              let (m, has, named) = load_alg_config-HasMethod k dir names entry.0 mode cfg loaded in
              (cfg, m, is, has)),
          (λ alg x y i j.
              ok-injective (sym (key-header configs alg x all i) ∙ key-header configs alg y all j)),
        )

    -- Where the methods have their registered names: in the map that LoadAllAlgConfigs
    -- returns, in whatever order Go visits it, the key for the algorithm that a
    -- configuration's tokens show in their header is that configuration's verification key.
    pub key_for-load_all_alg_configs :
        (algs : List String) (configs visit : Configs Key) (name : String) (cfg : AlgConfig Key)
        → load_all_alg_configs k dir algs mode ≡ ok configs
        → In (name, some cfg) configs
        → ((e : String × Option (AlgConfig Key)) → In e configs ↔ In e visit)
        → key_for visit (header_alg_for_config_alg name) ≡ ok cfg.verify_key
    key_for-load_all_alg_configs algs configs visit name cfg e i same =
        let (usable, uniform) = load_all_alg_configs_lem algs configs e in
        let (c, is, loaded) = all_loaded algs configs e (name, some cfg) i in
        let (m, has, named) = load_alg_config-HasMethod k dir names name mode c loaded in
        let method : cfg.method ≡ some m =
          ap (λ (x : AlgConfig Key). x.method) (some-injective _ _ is) ∙ has in
        subst (λ a. key_for visit a ≡ ok cfg.verify_key) named
          (sym (key_for-order configs visit m.alg same usable uniform)
            ∙ key_for-own configs name cfg m usable uniform i method)
