-- ===== src/External/Uuid.antt =====
-- github.com/google/uuid as a parameter. A uuid.UUID is sixteen bytes; it is held as the number
-- that they spell, and uuid.Nil is 0.
use tasktify.Prelude.{ℕ, String, ◌≡◌, Result, ok}

abbrev pub Uuid : Type 0
Uuid = ℕ

abbrev pub nil : Uuid
nil = 0

pub record UuidLib : Type 0 where
  -- uuid.Parse
  pub parse : String → Result Uuid
  -- UUID.String
  pub render : Uuid → String

-- uuid.Parse reads what UUID.String writes.
pub record IsUuidLib (u : UuidLib) : Type 0 where
  pub parse_render : (id : Uuid) → u.parse (u.render id) ≡ ok id
