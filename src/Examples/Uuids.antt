-- ===== src/Examples/Uuids.antt =====
-- A notation for github.com/google/uuid: a number in unary, behind a mark.
use Prim.Native.String
use Prim.Native.String.{len}
use text.Mathlib.TextPositions.{len-append}
use tasktify.Prelude.{
  zero, suc, ◌-◌, ◌+◌, String, Result, ok, err, plain, str_eq, if◌then◌else◌, ◌≡◌, ◌≢◌, refl, ap,
  ◌∙◌, arith, false, eq_iff,
}
use tasktify.External.Uuid.{Uuid, UuidLib, IsUuidLib}

unfoldable pub render_mark : Uuid → String
render_mark zero = "#"
render_mark (suc n) = String.◌++◌ "1" (render_mark n)

unfoldable pub parse_mark : String → Result Uuid
parse_mark s = if str_eq s "" then err (plain "invalid UUID") else ok (len s - 1)

abbrev pub uuids : UuidLib
uuids = record { parse = parse_mark; render = render_mark }

len-render : (n : Uuid) → len (render_mark n) ≡ suc n
unfolding render_mark
len-render zero = refl
len-render (suc n) =
    let rest = len-render n in
    let one : 1 + suc n ≡ suc (suc n) = ground arith in
    len-append "1" (render_mark n) ∙ ap (λ k. 1 + k) rest ∙ one

pub rendered : (n : Uuid) → render_mark n ≢ ""
rendered n blank = absurd (ground (arith, len-render n, ap len blank))

pub uuids-IsUuidLib : IsUuidLib uuids
unfolding parse_mark
uuids-IsUuidLib = record {
  parse_render = λ n.
      let marked : str_eq (render_mark n) "" ≡ false =
        ground (arith, rendered n, eq_iff (render_mark n) "") in
      rw (marked, len-render n) (ap ok (ground arith));
}
