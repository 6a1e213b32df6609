-- ===== src/Bootstrap/Passes.antt =====
-- Proofs: after Bootstrap of backend/auth-service and of backend/gateway with the same settings,
-- the gateway lets the access tokens of the auth-service pass.
use Prim.Native.String
use Prim.Native.String.{len}
use tasktify.Prelude.{
  String, Option, some, List, [], ◌∷◌, Bool, true, false, not, Result, ok, ◌≡◌, ◌≢◌, ◌≤◌, refl, sym,
  ◌∙◌, str_eq, eq_iff, select, map, All, arith, Ensures, Ensures-step, Ensures-ok, Bool-cases, inl,
  inr,
}
use tasktify.External.Uuid.{UuidLib}
use tasktify.External.Jwt.{Bytes, SigningMethod, JwtLib, IsJwtLib}
use tasktify.Jwt.Claims.{
  JwtClaims, JwtPayload, Moment, validate, max_jwt_compact_bytes, token_use_access, new_claims,
}
use tasktify.Jwt.Util.{use_or_access}
use tasktify.Jwt.Multi.{AlgConfig, MultiUtil, Configs, sign, parse, multi_util}
use tasktify.Jwt.Issued.{IsIssuable, IsCurrent, issued_claims}
use tasktify.Jwt.Loader.{KeyLib, load_alg_config, load_all_alg_configs}
use tasktify.Jwt.Loader.Methods.{HasNames}
use tasktify.Jwt.Services.{IsLoaded, Covers, sign-parse_between}
use tasktify.Gateway.Middleware.{handle}
use tasktify.Gateway.Routes.Issued.{handle-parse}
use tasktify.Bootstrap.Texts.{split, trim_space}
use tasktify.Bootstrap.{
  Settings, supported_algorithms, auth_algs, gateway_algs, key_files, new_util, auth_bootstrap,
  gateway_bootstrap,
}

-- The list of algorithms is written without white space and without empty parts.
abbrev pub IsTight : String → Type 0
IsTight raw = raw ≢ "" → All (λ part. (trim_space part ≡ part) × (part ≢ "")) (split raw)

kept_parts :
    (parts : List String)
    → All (λ part. (trim_space part ≡ part) × (part ≢ "")) parts
    → select (λ t. not (str_eq t "")) (map trim_space parts) ≡ parts
kept_parts [] h = refl
kept_parts (part ∷ parts) h =
    let filled : str_eq part "" ≡ false = ground (arith, eq_iff part "", h.0) in
    rw (h.0.0, filled, kept_parts parts (h.1))

-- Both services read such a list alike.
gateway_algs-eq-auth_algs : (raw : String) → IsTight raw → gateway_algs raw ≡ auth_algs raw
unfolding gateway_algs auth_algs
gateway_algs-eq-auth_algs raw tight = elim (Bool-cases (str_eq raw "")) [
  | inl blank ↦ rw blank refl
  | inr filled ↦
      rw (filled, kept_parts (split raw) (tight (λ e. absurd (ground (arith, eq_iff raw ""))))) refl
]

module _ {Key : Type 0} (k : KeyLib Key) (files : String → String → Result Bytes)
    (s : Settings) where
  -- What a utility made with the settings, with configurations for a list of algorithms, looks
  -- like.
  record Made (mode : Bool) (algs : List String) (m : MultiUtil Key) : Type 0 where
    its_configs : IsLoaded k (key_files k files s) mode algs m
    its_issuer : m.issuer ≡ s.jwt_issuer
    its_audience : m.audience ≡ s.jwt_audience

  new_util-Made :
      (mode : Bool) (algs : List String) (configs : Configs Key)
      → load_all_alg_configs k (key_files k files s) algs mode ≡ ok configs
      → Made mode algs (new_util k files s configs)
  unfolding new_util
  new_util-Made mode algs configs loaded = record {
    its_configs = record { configs = configs; loaded = loaded; visit = λ e. (λ i. i, λ i. i) };
    its_issuer = refl;
    its_audience = refl;
  }

  auth_bootstrap-Made :
      Ensures (Made true (auth_algs s.jwt_allowed_algs)) (auth_bootstrap k files s)
  unfolding auth_bootstrap
  auth_bootstrap-Made =
      Ensures-step _
        (load_all_alg_configs k (key_files k files s) (auth_algs s.jwt_allowed_algs) true) _
        λ configs e. Ensures-ok _ (new_util-Made true (auth_algs s.jwt_allowed_algs) configs e)

  gateway_bootstrap-Made :
      Ensures
        (λ (p : MultiUtil Key × MultiUtil Key). Made false (gateway_algs s.jwt_allowed_algs) p.0)
        (gateway_bootstrap k files s)
  unfolding gateway_bootstrap
  gateway_bootstrap-Made =
      Ensures-step _
        (load_all_alg_configs k (key_files k files s) (gateway_algs s.jwt_allowed_algs) false) _
        λ configs e.
          Ensures-step _ (load_all_alg_configs k (key_files k files s) supported_algorithms true) _
            λ benchmark _.
              Ensures-ok _ (new_util-Made false (gateway_algs s.jwt_allowed_algs) configs e)

  module _ (names : HasNames k) (lib : JwtLib Key JwtClaims) (u : UuidLib)
      {Verifies : String → String → Option Key → Type 0}
      {Pairs : SigningMethod Key → Option Key → Option Key → Type 0}
      (jwt : IsJwtLib lib (λ c. c.registered) (validate u) Verifies Pairs) where
    -- The keys of the directory belong together.
    abbrev pub KeysPair : Type 0
    KeysPair =
        (name : String) (cfg : AlgConfig Key) (method : SigningMethod Key)
        → load_alg_config k (key_files k files s) name true ≡ ok cfg
        → cfg.method ≡ some method
        → Pairs method cfg.sign_key cfg.verify_key

    -- The gateway parses what the auth-service signs.
    pub bootstrap-parse :
        (m m' benchmark : MultiUtil Key) (at now : Moment) (payload : JwtPayload) (token : String)
        → IsTight s.jwt_allowed_algs
        → auth_bootstrap k files s ≡ ok m
        → gateway_bootstrap k files s ≡ ok (m', benchmark)
        → KeysPair
        → IsIssuable u payload
        → sign lib u m at payload ≡ ok token
        → IsCurrent u m payload at now
        → len token ≤ max_jwt_compact_bytes
        → parse lib u m' now token ≡ ok (issued_claims u m at payload)
    bootstrap-parse m m' benchmark at now payload token tight auth gateway pairs wf signed current
          size =
        let signer = auth_bootstrap-Made.at m auth in
        let verifier = gateway_bootstrap-Made.at (m', benchmark) gateway in
        let covers : Covers (auth_algs s.jwt_allowed_algs) (gateway_algs s.jwt_allowed_algs) =
          rw (gateway_algs-eq-auth_algs s.jwt_allowed_algs tight) (λ name i. (name, i, refl)) in
        sign-parse_between k (key_files k files s) names (auth_algs s.jwt_allowed_algs)
          (gateway_algs s.jwt_allowed_algs) m m' signer.its_configs verifier.its_configs covers lib
          u jwt at now payload token pairs (verifier.its_issuer ∙ sym signer.its_issuer)
          (verifier.its_audience ∙ sym signer.its_audience) wf signed current size

    -- With golang-jwt as documented, and methods with their registered names: the auth-service and
    -- the gateway have started with the same settings, whose list of algorithms has no white space
    -- and no empty part, and with one directory of keys, in which private and public keys belong
    -- together. Then an access token that the auth-service signs for a payload with an id that is
    -- not nil, whose text is not empty, and with an address, sent after `Bearer ` from its issuing
    -- until it expires, passes the middleware of the gateway, which names the payload's user to the
    -- handlers; provided that the token is at most 64 KiB long.
    pub bootstrap-handle :
        (m m' benchmark : MultiUtil Key) (at now : Moment) (payload : JwtPayload) (token : String)
        → IsTight s.jwt_allowed_algs
        → auth_bootstrap k files s ≡ ok m
        → gateway_bootstrap k files s ≡ ok (m', benchmark)
        → KeysPair
        → IsIssuable u payload
        → payload.token_use ≡ token_use_access
        → sign lib u m at payload ≡ ok token
        → IsCurrent u m payload at now
        → len token ≤ max_jwt_compact_bytes
        → handle (multi_util lib u m') u now (String.◌++◌ "Bearer " token)
          ≡ ok (record {
            user_id = some (u.render payload.user_id);
            user_email = some payload.email;
          })
    unfolding new_claims use_or_access
    bootstrap-handle m m' benchmark at now payload token tight auth gateway pairs wf access signed
          current size =
        handle-parse lib u m' now token (issued_claims u m at payload)
          (bootstrap-parse m m' benchmark at now payload token tight auth gateway pairs wf signed
            current size)
          (rw access refl)
