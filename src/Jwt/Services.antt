-- ===== src/Jwt/Services.antt =====
-- Two services that load their configurations from one directory of keys, one for signing and one
-- for verification, as Bootstrap of backend/auth-service and of backend/gateway do.
use Prim.Native.String.{len}
use tasktify.Prelude.{
  String, Option, some, some-injective, List, [], true, false, Bool, Result, ok, In, ◌≡◌, ◌≤◌, ◌↔◌,
  sym, ap, subst, ◌∙◌, ok-injective,
}
use tasktify.External.Uuid.{UuidLib}
use tasktify.External.Jwt.{Bytes, SigningMethod, JwtLib, IsJwtLib}
use tasktify.Jwt.Claims.{
  JwtClaims, JwtPayload, Moment, validate, max_jwt_compact_bytes, header_alg_for_config_alg,
}
use tasktify.Jwt.Multi.{
  AlgConfig, Configs, MultiUtil, key_for, parse, sign, allowed_header_algs, allowed_from,
}
use tasktify.Jwt.Allowed.{allowed_from-has}
use tasktify.Jwt.Issued.{IsIssuable, IsCurrent, HasKeyFor, issued_claims, sign-Issued, parse-Issued}
use tasktify.Jwt.Loader.{KeyLib, load_alg_config, load_all_alg_configs}
use tasktify.Jwt.Loader.Agreement.{verify_key_in, load_alg_config-key}
use tasktify.Jwt.Loader.Methods.{HasNames, load_alg_config-HasMethod}
use tasktify.Jwt.Loader.Loaded.{all_loaded, key_for-load_all_alg_configs}
use tasktify.Jwt.Loader.Entries.{load_all_alg_configs-names}

-- A utility whose map holds what LoadAllAlgConfigs has loaded, in the order of some visit.
pub record IsLoaded {Key : Type 0} (k : KeyLib Key) (dir : String → Result Bytes) (mode : Bool)
    (algs : List String) (m : MultiUtil Key) : Type 0 where
  pub configs : Configs Key
  pub loaded : load_all_alg_configs k dir algs mode ≡ ok configs
  pub visit : (e : String × Option (AlgConfig Key)) → In e configs ↔ In e m.configs

-- Each profile of the signer has one of the verifier whose tokens show the same name.
abbrev pub Covers : List String → List String → Type 0
Covers algs algs' =
    (name : String)
    → In name algs
    → (name' : String) × In name' algs'
      × (header_alg_for_config_alg name' ≡ header_alg_for_config_alg name)

-- An entry of such a utility is what LoadAlgConfig loads under a name that was asked for.
IsLoaded-entry :
    {Key : Type 0} (k : KeyLib Key) (dir : String → Result Bytes) (mode : Bool) (algs : List String)
    (m : MultiUtil Key) (name : String) (cfg : AlgConfig Key)
    → IsLoaded k dir mode algs m
    → In (name, some cfg) m.configs
    → (load_alg_config k dir name mode ≡ ok cfg) × In name algs
IsLoaded-entry k dir mode algs m name cfg l i =
    let j = (l.visit (name, some cfg)).1 i in
    let (c, is, loaded) = all_loaded k dir mode algs l.configs l.loaded (name, some cfg) j in
    (
      loaded ∙ ap ok (sym (some-injective _ _ is)),
      (load_all_alg_configs-names k dir mode algs l.configs l.loaded).1 (name, some cfg) j,
    )

module _ {Key : Type 0} (k : KeyLib Key) (dir : String → Result Bytes) (names : HasNames k)
    (algs algs' : List String) (m m' : MultiUtil Key) (signer : IsLoaded k dir true algs m)
    (verifier : IsLoaded k dir false algs' m') (covers : Covers algs algs') where
  -- The verifier has the key for each method of the signer.
  services-HasKeyFor :
      (name : String) (cfg : AlgConfig Key) (method : SigningMethod Key)
      → In (name, some cfg) m.configs
      → cfg.method ≡ some method
      → (load_alg_config k dir name true ≡ ok cfg) × HasKeyFor m' method cfg.verify_key
  unfolding allowed_header_algs
  services-HasKeyFor name cfg method i has =
      let (loaded, asked) = IsLoaded-entry k dir true algs m name cfg signer i in
      let (own, has_own, named) = load_alg_config-HasMethod k dir names name true cfg loaded in
      let (name', asked', header) = covers name asked in
      let (cfg', e') =
        (load_all_alg_configs-names k dir false algs' verifier.configs verifier.loaded).0 name'
          asked' in
      let i' = (verifier.visit (name', some cfg')).0 e' in
      let loaded' = (IsLoaded-entry k dir false algs' m' name' cfg' verifier i').0 in
      let (own', has_own', named') =
        load_alg_config-HasMethod k dir names name' false cfg' loaded' in
      let alg : method.alg ≡ header_alg_for_config_alg name' =
        ap (λ (x : SigningMethod Key). x.alg) (some-injective _ _ (sym has ∙ has_own))
        ∙ named
        ∙ sym header in
      let same_key : cfg'.verify_key ≡ cfg.verify_key = ok-injective (
        sym (load_alg_config-key k dir name' false cfg' loaded')
        ∙ ap (λ a. verify_key_in k dir (load_alg_config k dir a false)) header
        ∙ load_alg_config-key k dir name true cfg loaded) in
      (
        loaded,
        record {
          its_key =
              ap (key_for m'.configs) alg
              ∙ key_for-load_all_alg_configs k dir false names algs' verifier.configs m'.configs
                  name' cfg' verifier.loaded e' verifier.visit
              ∙ ap ok same_key;
          allowed =
              subst (λ a. In a (allowed_from [] m'.configs)) (named' ∙ sym alg)
                (allowed_from-has [] m'.configs name' cfg' own' i' has_own');
        },
      )

  module _ (lib : JwtLib Key JwtClaims) (u : UuidLib)
      {Verifies : String → String → Option Key → Type 0}
      {Pairs : SigningMethod Key → Option Key → Option Key → Type 0}
      (jwt : IsJwtLib lib (λ c. c.registered) (validate u) Verifies Pairs) where
    -- With golang-jwt as documented: a service that signs and one that verifies have loaded their
    -- configurations from one directory, in whose files private and public keys belong together;
    -- each profile of the first has one of the second with the same name in the header of its
    -- tokens, and issuer and audience are the same. Then what the first signs, the second accepts,
    -- from its issuing until it expires, with the claims that were put in; provided that the token
    -- is at most 64 KiB long.
    pub sign-parse_between :
        (at at' : Moment) (payload : JwtPayload) (s : String)
        → ((name : String) (cfg : AlgConfig Key) (method : SigningMethod Key)
            → load_alg_config k dir name true ≡ ok cfg
            → cfg.method ≡ some method
            → Pairs method cfg.sign_key cfg.verify_key)
        → m'.issuer ≡ m.issuer
        → m'.audience ≡ m.audience
        → IsIssuable u payload
        → sign lib u m at payload ≡ ok s
        → IsCurrent u m payload at at'
        → len s ≤ max_jwt_compact_bytes
        → parse lib u m' at' s ≡ ok (issued_claims u m at payload)
    sign-parse_between at at' payload s pairs issuer audience wf signed current size =
        let i = sign-Issued lib u m at payload s signed in
        let (loaded, has) = services-HasKeyFor i.name i.config i.method i.configured i.has_method in
        parse-Issued lib u jwt m m' issuer audience at at' payload s i.config.verify_key wf i has
          (pairs i.name i.config i.method loaded i.has_method) current size
