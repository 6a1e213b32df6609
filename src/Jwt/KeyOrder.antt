-- ===== src/Jwt/KeyOrder.antt =====
-- The order in which Go visits the configurations of backend/pkg/utils/jwtutils/jwt.go does not
-- matter.
use tasktify.Prelude.{
  String, Option, none, some, [], ◌∷◌, ok, err, str_eq, if◌then◌else◌, ◌≡◌, ◌⊎◌, inl, inr, refl,
  sym, ap, ◌∙◌, arith, eq_iff, In, Bool-cases, ◌↔◌, false, plain,
}
use tasktify.External.Jwt.{SigningMethod}
use tasktify.Jwt.Multi.{AlgConfig, Configs, alg_of, key_for, alg_of}
use tasktify.Jwt.Keys.{IsKeyOf, key_for_sound}

-- A configuration as LoadAllAlgConfigs makes them: neither it nor its method is nil.
abbrev pub IsUsable : {Key : Type 0} → String × Option (AlgConfig Key) → Type 0
IsUsable {Key} (name, entry) =
    (cfg : AlgConfig Key) × (m : SigningMethod Key) × (entry ≡ some cfg) × (cfg.method ≡ some m)

-- One round of the search, at a configuration that is not nil.
key_for-cons :
    {Key : Type 0} (name : String) (c : AlgConfig Key) (configs : Configs Key) (alg : String)
    (m : SigningMethod Key)
    → c.method ≡ some m
    → key_for ((name, some c) ∷ configs) alg
      ≡ (if str_eq m.alg alg then ok c.verify_key else key_for configs alg)
unfolding key_for
key_for-cons name c configs alg m has = elim (Bool-cases (str_eq m.alg alg)) [
  | inl same ↦ rw (has, alg_of, same)
  | inr different ↦ rw (has, alg_of, different)
]

method_of-usable :
    {Key : Type 0} (name : String) (c : AlgConfig Key)
    → IsUsable (name, some c)
    → (m : SigningMethod Key) × (c.method ≡ some m)
method_of-usable name c (cfg, m, same, has) = (m, ground arith)

-- The key of the first configuration can only be asked for by its own algorithm.
not_here :
    {Key : Type 0} (name : String) (c : AlgConfig Key) (configs : Configs Key) (alg : String)
    (m : SigningMethod Key) {key : Option Key}
    → c.method ≡ some m
    → str_eq m.alg alg ≡ false
    → IsKeyOf ((name, some c) ∷ configs) alg key
    → IsKeyOf configs alg key
not_here name c configs alg m has different k = elim k.configured [
  | inl here ↦ absurd (
      ground (
        arith,
        k.has_method,
        k.same_alg,
        ap (λ (e : String × Option (AlgConfig _)). e.1) here,
        eq_iff m.alg alg,
      ))
  | inr later ↦ record {
    name = k.name;
    config = k.config;
    method = k.method;
    configured = later;
    has_method = k.has_method;
    same_alg = k.same_alg;
    its_key = k.its_key;
  }
]

module _ {Key : Type 0} where
  abbrev pub Usables : Configs Key → Type 0
  Usables configs = (entry : String × Option (AlgConfig Key)) → In entry configs → IsUsable entry

  -- Where no configuration is nil, the search ends with a key of the algorithm, or finds that no
  -- configuration has it.
  pub key_for-search :
      (configs : Configs Key) (alg : String)
      → Usables configs
      → ((key : Option Key) × (key_for configs alg ≡ ok key))
        ⊎ ((key_for configs alg ≡ err (plain "no key configured for algorithm"))
            × ((key : Option Key) → IsKeyOf configs alg key → ⊥))
  key_for-search [] alg usable = inr (unfold key_for in refl, λ key k. elim k.configured [ ])
  key_for-search ((name, none) ∷ configs) alg usable =
      let (cfg, m, is_some, has) = usable (name, none) (inl refl) in absurd (cc is_some)
  key_for-search ((name, some c) ∷ configs) alg usable =
      let (m, has) = method_of-usable name c (usable (name, some c) (inl refl)) in
      let step = key_for-cons name c configs alg m has in
      elim (Bool-cases (str_eq m.alg alg)) [
        | inl same ↦ inl (c.verify_key, step ∙ rw same)
        | inr different ↦ elim (key_for-search configs alg (λ entry i. usable entry (inr i))) [
          | inl (key, found) ↦ inl (key, step ∙ rw different found)
          | inr (missing, no_key) ↦ inr (
            step ∙ rw different missing,
            λ key k. no_key key (not_here name c configs alg m has different k),
          )
        ]
      ]

  -- Two configurations with one algorithm in the token have one key.
  abbrev pub IsUniform : Configs Key → Type 0
  IsUniform configs =
      (alg : String) (k l : Option Key) → IsKeyOf configs alg k → IsKeyOf configs alg l → k ≡ l

  carry :
      (xs ys : Configs Key) (alg : String) (key : Option Key)
      → ((entry : String × Option (AlgConfig Key)) → In entry xs → In entry ys)
      → IsKeyOf xs alg key
      → IsKeyOf ys alg key
  carry xs ys alg key sub k = record {
    name = k.name;
    config = k.config;
    method = k.method;
    configured = sub (k.name, some k.config) k.configured;
    has_method = k.has_method;
    same_alg = k.same_alg;
    its_key = k.its_key;
  }

  -- The key that verifies a token does not depend on the order in which Go visits the map, if no
  -- configuration is nil and the configurations of one algorithm share their key.
  pub key_for-order :
      (xs ys : Configs Key) (alg : String)
      → ((entry : String × Option (AlgConfig Key)) → In entry xs ↔ In entry ys)
      → ((entry : String × Option (AlgConfig Key)) → In entry xs → IsUsable entry)
      → IsUniform xs
      → key_for xs alg ≡ key_for ys alg
  key_for-order xs ys alg same usable uniform = elim (key_for-search xs alg usable) [
    | inl (k, found) ↦ elim (key_for-search ys alg (λ entry i. usable entry ((same entry).1 i))) [
      | inl (l, found') ↦
          let equal : k ≡ l =
            uniform alg k l (key_for_sound xs alg k found)
              (carry ys xs alg l (λ e. (same e).1) (key_for_sound ys alg l found')) in
          found ∙ ap ok equal ∙ sym found'
      | inr (missing, no_key) ↦
          absurd (no_key k (carry xs ys alg k (λ e. (same e).0) (key_for_sound xs alg k found)))
    ]
    | inr (missing, no_key) ↦
        elim (key_for-search ys alg (λ entry i. usable entry ((same entry).1 i))) [
          | inl (l, found') ↦
              absurd
                (no_key l (carry ys xs alg l (λ e. (same e).1) (key_for_sound ys alg l found')))
          | inr (missing', no_key') ↦ missing ∙ sym missing'
        ]
  ]

  -- A configured method's token is verified with the key of its own configuration.
  pub key_for-own :
      (configs : Configs Key) (name : String) (cfg : AlgConfig Key) (m : SigningMethod Key)
      → ((entry : String × Option (AlgConfig Key)) → In entry configs → IsUsable entry)
      → IsUniform configs
      → In (name, some cfg) configs
      → cfg.method ≡ some m
      → key_for configs m.alg ≡ ok cfg.verify_key
  key_for-own configs name cfg m usable uniform i has =
      let own : IsKeyOf configs m.alg cfg.verify_key = record {
        name = name;
        config = cfg;
        method = m;
        configured = i;
        has_method = has;
        same_alg = refl;
        its_key = refl;
      } in
      elim (key_for-search configs m.alg usable) [
        | inl (k, found) ↦
            found ∙ ap ok (uniform m.alg k cfg.verify_key (key_for_sound configs m.alg k found) own)
        | inr (missing, no_key) ↦ absurd (no_key cfg.verify_key own)
      ]
