-- ===== src/Jwt/Loader/Entries.antt =====
-- The names under which LoadAllAlgConfigs of backend/pkg/utils/jwtutils/loader.go fills its map.
use tasktify.Prelude.{
  String, Option, some, List, [], ◌∷◌, Bool, Result, ok, insert, In, inl, inr, ◌≡◌, ◌⊎◌, refl, sym,
  ap, subst, str_eq, eq_iff, Bool-cases, Ensures, Ensures-ok, Ensures-step,
}
use tasktify.External.Jwt.{Bytes}
use tasktify.Jwt.Multi.{AlgConfig, Configs}
use tasktify.Jwt.Loader.{KeyLib, load_alg_config, load_from, load_all_alg_configs}
use tasktify.Jwt.Loader.Loaded.{insert-In}

-- A name has an entry that is not nil.
abbrev pub HasName : {Key : Type 0} → String → Configs Key → Type 0
HasName {Key} name configs = (cfg : AlgConfig Key) × In (name, some cfg) configs

insert-HasName_self :
    {Key : Type 0} (name : String) (cfg : AlgConfig Key) (configs : Configs Key)
    → HasName name (insert name (some cfg) configs)
unfolding insert
insert-HasName_self name cfg [] = (cfg, inl refl)
insert-HasName_self name cfg ((j, w) ∷ configs) = elim (Bool-cases (str_eq j name)) [
  | inl same ↦
      rw same (cfg, inl (ap (λ (n : String). (n, some cfg)) (sym ((eq_iff j name).0 same))))
  | inr other ↦ let (c, i) = insert-HasName_self name cfg configs in rw other (c, inr i)
]

insert-HasName_keep :
    {Key : Type 0} (k name : String) (new : AlgConfig Key) (configs : Configs Key)
    → HasName k configs
    → HasName k (insert name (some new) configs)
unfolding insert
insert-HasName_keep k name new [] (cfg, i) = elim i [ ]
insert-HasName_keep k name new ((j, w) ∷ configs) (cfg, inl here) =
    elim (Bool-cases (str_eq j name)) [
      | inl same ↦ rw same (new, inl (ap (λ e. (e.0, some new)) here))
      | inr other ↦ rw other (cfg, inl here)
    ]
insert-HasName_keep k name new ((j, w) ∷ configs) (cfg, inr later) =
    elim (Bool-cases (str_eq j name)) [
      | inl same ↦ rw same (cfg, inr later)
      | inr other ↦
          let (c, i) = insert-HasName_keep k name new configs (cfg, later) in rw other (c, inr i)
    ]

module _ {Key : Type 0} (k : KeyLib Key) (dir : String → Result Bytes) (mode : Bool) where
  -- The entries are those that were there, and those of the names that are loaded.
  load_from-names :
      (configs : Configs Key) (algs : List String)
      → Ensures
          (λ (all : Configs Key).
            (e : String × Option (AlgConfig Key)) → In e all → In e.0 algs ⊎ In e configs)
          (load_from k dir configs algs mode)
  unfolding load_from
  load_from-names configs [] = Ensures-ok configs (λ e i. inr i)
  load_from-names configs (alg ∷ algs) = Ensures-step _ (load_alg_config k dir alg mode) _ λ cfg p.
      record {
        at = λ all loaded e i.
            elim ((load_from-names (insert alg (some cfg) configs) algs).at all loaded e i) [
              | inl named ↦ inl (inr named)
              | inr before ↦ elim (insert-In alg (some cfg) configs e before) [
                | inl new ↦ inl (inl (ap (λ x. x.0) new))
                | inr old ↦ inr old
              ]
            ];
      }

  load_from-keeps :
      (name : String) (configs : Configs Key) (algs : List String)
      → HasName name configs
      → Ensures (HasName name) (load_from k dir configs algs mode)
  unfolding load_from
  load_from-keeps name configs [] has = Ensures-ok configs has
  load_from-keeps name configs (alg ∷ algs) has =
      Ensures-step _ (load_alg_config k dir alg mode) _ λ cfg p.
        load_from-keeps name (insert alg (some cfg) configs) algs
          (insert-HasName_keep name alg cfg configs has)

  load_from-has :
      (name : String) (configs : Configs Key) (algs : List String)
      → In name algs
      → Ensures (HasName name) (load_from k dir configs algs mode)
  unfolding load_from
  load_from-has name configs [] i = elim i [ ]
  load_from-has name configs (alg ∷ algs) (inl here) =
      Ensures-step _ (load_alg_config k dir alg mode) _ λ cfg p.
        load_from-keeps name (insert alg (some cfg) configs) algs (
          subst (λ n. HasName name (insert n (some cfg) configs)) here
            (insert-HasName_self name cfg configs))
  load_from-has name configs (alg ∷ algs) (inr later) =
      Ensures-step _ (load_alg_config k dir alg mode) _
        λ cfg p. load_from-has name (insert alg (some cfg) configs) algs later

  -- The map has an entry for each name that is asked for, and no other.
  pub load_all_alg_configs-names :
      (algs : List String) (configs : Configs Key)
      → load_all_alg_configs k dir algs mode ≡ ok configs
      → ((name : String) → In name algs → HasName name configs)
        × ((e : String × Option (AlgConfig Key)) → In e configs → In e.0 algs)
  unfolding load_all_alg_configs
  load_all_alg_configs-names algs configs loaded = (
    λ name i. (load_from-has name [] algs i).at configs loaded,
    λ e i. elim ((load_from-names [] algs).at configs loaded e i) [
      | inl named ↦ named
      | inr before ↦ elim before [ ]
    ],
  )
