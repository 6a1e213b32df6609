-- ===== src/Jwt/Resolution.antt =====
-- The configurations that backend/pkg/utils/jwtutils/jwt.go finds for an algorithm are configured.
use mathlib.Core.Option
use tasktify.Prelude.{
  String, Option, none, some, [], ◌∷◌, Result, ok, err, panic, ◌>>=◌, str_eq, ◌≡◌, inl, inr, ap,
  ◌∙◌, arith, lookup, In, Bool-cases, Option-cases,
}
use tasktify.Jwt.Claims.{header_alg_for_config_alg}
use tasktify.Jwt.Multi.{AlgConfig, Configs, config_for_sign_alg, config_for_header_alg}

ok_some : {A : Type 0} {a b : A} → ok (some a) ≡ ok (some b) → a ≡ b
ok_some e = cc

module _ {Key : Type 0} where
  lookup-In :
      (configs : Configs Key) (alg : String) (cfg : Option (AlgConfig Key))
      → lookup alg configs ≡ some cfg
      → (name : String) × In (name, cfg) configs
  unfolding lookup
  lookup-In [] alg cfg e = absurd (cc e)
  lookup-In ((name, entry) ∷ configs) alg cfg e = elim (Bool-cases (str_eq name alg)) [
    | inl same ↦ (name, inl (ground arith))
    | inr different ↦ let (n, i) = lookup-In configs alg cfg (rw different at e) in (n, inr i)
  ]

  -- What the search by a token's algorithm finds is configured.
  config_for_header_alg-In :
      (configs : Configs Key) (alg : String) (cfg : AlgConfig Key)
      → config_for_header_alg configs alg ≡ ok (some cfg)
      → (name : String) × In (name, some cfg) configs
  unfolding config_for_header_alg
  config_for_header_alg-In [] alg cfg e = absurd (cc e)
  config_for_header_alg-In ((name, none) ∷ configs) alg cfg e = absurd (cc e)
  config_for_header_alg-In ((name, some c) ∷ configs) alg cfg e = elim (Option-cases c.method) [
    | inl no_method ↦ absurd (ground arith)
    | inr (m, has) ↦ elim (Bool-cases (str_eq m.alg alg)) [
      | inl same ↦ (name, inl (ground arith))
      | inr different ↦
          let (n, i) = config_for_header_alg-In configs alg cfg (ground arith) in (n, inr i)
    ]
  ]

  found-some :
      (r : Result (Option (AlgConfig Key))) {cfg : AlgConfig Key}
      → (r >>= λ found. ok (Option.map some found)) ≡ ok (some (some cfg))
      → r ≡ ok (some cfg)
  found-some (ok none) e = absurd (cc e)
  found-some (ok (some c)) e = cc e
  found-some (err _) e = absurd (cc e)
  found-some panic e = absurd (cc e)

  fallback :
      (configs : Configs Key) (alg : String) (cfg : AlgConfig Key)
      → lookup alg configs ≡ none
      → config_for_sign_alg configs alg ≡ ok (some (some cfg))
      → config_for_header_alg configs alg ≡ ok (some cfg)
  unfolding config_for_sign_alg
  fallback configs alg cfg missing e =
      elim (Bool-cases (str_eq alg (header_alg_for_config_alg alg))) [
        | inl own ↦
            found-some (config_for_header_alg configs alg)
              (rw (missing, config_for_sign_alg, own) at e)
        | inr other_name ↦ absurd (cc (rw (missing, config_for_sign_alg, other_name) at e))
      ]

  hit_is :
      (configs : Configs Key) (alg : String) (entry : Option (AlgConfig Key)) (cfg : AlgConfig Key)
      → lookup alg configs ≡ some entry
      → config_for_sign_alg configs alg ≡ ok (some (some cfg))
      → lookup alg configs ≡ some (some cfg)
  unfolding config_for_sign_alg
  hit_is configs alg entry cfg hit e =
      let same = rw (hit, config_for_sign_alg) at e in hit ∙ ap some (ok_some same)

  -- So is what the search for signing finds.
  pub config_for_sign_alg-In :
      (configs : Configs Key) (alg : String) (cfg : AlgConfig Key)
      → config_for_sign_alg configs alg ≡ ok (some (some cfg))
      → (name : String) × In (name, some cfg) configs
  config_for_sign_alg-In configs alg cfg e = elim (Option-cases (lookup alg configs)) [
    | inl missing ↦ config_for_header_alg-In configs alg cfg (fallback configs alg cfg missing e)
    | inr (entry, hit) ↦ lookup-In configs alg (some cfg) (hit_is configs alg entry cfg hit e)
  ]
