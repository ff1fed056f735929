-- ===== src/Prelude.antt =====
-- The names that the other modules share: the libraries', passed on, and those of the children.
mod Tests
mod Lists
mod Int
mod Maps
mod Texts
mod Sort
pub use Tests.*
pub use Prim.Native.Nat.{ℕ, zero, suc, ◌+◌, ◌-◌, ◌*◌, ◌/◌, ◌%◌, ◌^◌, ◌≤◌, ◌<◌}
pub use mathlib.Core.Path.{◌≡◌, refl, sym, ap, ap₂, ◌∙◌, subst}
pub use mathlib.Core.Logic.{◌≢◌, ◌↔◌, ◌⊎◌, inl, inr, ite, dite}
pub use mathlib.Core.Bool.{Bool, true, false, not, ◌&&◌, ◌||◌}
pub use mathlib.Core.Option.{Option, none, some}
pub use mathlib.Core.List.{List, [], ◌∷◌, ◌++◌, map, reverse, Mem, Perm}
pub use native.Mathlib.Omega.{arith}
unfoldable pub use native.Mathlib.Decide.{dec_lt, dec_le, ℕ_discrete}
unfoldable pub use Lists.{length, get_elem?, set, take, drop, select, All}
pub use Lists.{
  length-append, take-append, drop-append, All-append, All-select, select_idem, get_elem?-lt,
  get_elem?-length, length-map,
}
pub use Int.{ℤ, pos, negsuc, IsInt64}
unfoldable pub use Int.{pos_part, neg_part, sub_ℕ, ◌+ℤ◌, ◌-ℤ◌, ◌≤ℤ◌, ◌<ℤ◌, ltb_ℤ, leb_ℤ, ℤ-discrete}
pub use Int.{+ℤ_parts, -ℤ_parts, eq_of_parts, int_laws, count_up, count_down}
unfoldable pub use Maps.{Map, get, put, delete}
pub use Maps.{get-put, get-delete, get-put_self, get-put_ne, get-delete_self, delete_absent}
unfoldable pub use Texts.{Text, Text-discrete, bytes, text_less, itoa}
pub use Texts.{text_less-StrictOrder, text_less_tells, ltb-StrictOrder, ltb_tells}
unfoldable pub use Sort.{sort, insert, by_field}
pub use Sort.{
  StrictOrder, Tells, IsSorted, sort-perm, sort-IsSorted, All-sort, length-sort, insert-perm,
  sort_lem, by_field-StrictOrder, by_field_tells, on-StrictOrder,
}
