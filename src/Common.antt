-- ===== src/Common.antt =====
-- The names that the modules share: the libraries', passed on, and those of the children below.
pub mod Tests
pub mod Lists
pub mod Results
pub mod Map
pub mod Text
pub mod Expiring
pub use Tests.{
  ltb, leb, nat_eq, ltb→lt, lt→ltb, leb→le, le→leb, ltb-false, leb-false, KeyEq, ◌==◌, string_eq,
  ℕ_eq, if◌then◌else◌, if_both, if_split, Bool-cases, Option-cases, and_true, or_else, or_else-none,
  ==-refl, ==-true, tests,
}
pub use Lists.{length, length-append, take, drop, All, All-append, All-map, map-append_lem}
pub use Results.{Result, ok, err, ◌>>=◌, ◌>>◌, >>=-ok, >>=-eq-ok, Result-cases}
pub use Prim.Native.Nat.{ℕ, zero, suc, ◌+◌, ◌-◌, ◌*◌, ◌/◌, ◌%◌, ◌^◌, ◌≤◌, ◌<◌}
pub use Prim.Native.String.{String}
pub use mathlib.Core.Path.{◌≡◌, refl, sym, ap, ◌∙◌, subst, fun_ext}
pub use mathlib.Core.Logic.{◌≢◌, ◌↔◌, ◌⊎◌, inl, inr}
pub use mathlib.Core.Bool.{Bool, true, false, not, ◌&&◌, ◌||◌}
pub use mathlib.Core.Option.{Option, none, some}
pub use mathlib.Core.List.{List, [], ◌∷◌, ◌++◌, map}
pub use native.Mathlib.Omega.{arith}
pub use text.Mathlib.TextEquality.{eq_iff}
