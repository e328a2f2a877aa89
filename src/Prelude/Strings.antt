-- ===== src/Prelude/Strings.antt =====
-- The `str` methods that the services use: `strip`, `lower`, `startswith`, f-strings and `sorted`.
-- `lower` maps the letters A to Z, and leaves all else as it is.
use Prim.Native.Nat.{ℕ, ◌-◌, Ordering}
use Prim.Native.Char.{Char, code}
use Prim.Native.String
use Prim.Native.String.{String}
use mathlib.Core.Path.{◌≡◌, refl, ap, ◌∙◌}
use text.Mathlib.TextEquality.{path_by_compare}
use native.Mathlib.Omega.{arith}
use mathlib.Core.Bool.{Bool, ◌&&◌, ◌||◌}
use mathlib.Core.Option.{Option, none, some}
use mathlib.Core.List.{List, [], ◌∷◌}
use text.Mathlib.Text.{starts_with as text_starts_with}
use m_gate.Prelude.Tests.{leb, nat_beq, if◌then◌else◌}
use m_gate.Prelude.Lists.{any}
use m_gate.Prelude.Equality.{◌==◌, string_eq, elem}

-- The operands of an f-string, in order.
abbrev pub concat : List String → String
concat [] = ""
concat (s ∷ []) = s
concat (s ∷ t ∷ ss) = String.◌++◌ s (concat (t ∷ ss))

-- The characters that `str.strip` takes off.
abbrev spaces : List ℕ
spaces =
    32 ∷ 9 ∷ 10 ∷ 11 ∷ 12 ∷ 13 ∷ 28 ∷ 29 ∷ 30 ∷ 31 ∷ 133 ∷ 160 ∷ 5760 ∷ 8232 ∷ 8233 ∷ 8239 ∷ 8287
    ∷ 12288 ∷ []

unfoldable pub is_space : Char → Bool
is_space c = any (nat_beq (code c)) spaces || (leb 8192 (code c) && leb (code c) 8202)

lstrip : String → String
lstrip String.[] = ""
lstrip (String.◌∷◌ c s) = let rest = lstrip s in if is_space c then rest else String.◌∷◌ c s

-- A space is kept only before a character that is kept.
rstrip : String → String
rstrip String.[] = ""
rstrip (String.◌∷◌ c s) =
    let rest = rstrip s in if (rest == "") && is_space c then "" else String.◌∷◌ c rest

unfoldable pub strip : String → String
unfolding lstrip rstrip is_space
strip s = rstrip (lstrip s)

abbrev lower_letters : String
lower_letters = "abcdefghijklmnopqrstuvwxyz"

lower_char : Char → Char
lower_char c =
    if leb 65 (code c) && leb (code c) 90 then String.char_at lower_letters (code c - 65) else c

unfoldable pub lower : String → String
unfolding lower_char
lower String.[] = ""
lower (String.◌∷◌ c s) = String.◌∷◌ (lower_char c) (lower s)

-- `s.startswith(prefix)`
abbrev pub starts_with : String → String → Bool
starts_with s prefix = text_starts_with s prefix

-- `sorted({...})`: one copy of each, by code points.
abbrev insert_at : Ordering → String → String → List String → List String → List String
insert_at Ordering.lt x y ys rest = x ∷ y ∷ ys
insert_at Ordering.eq x y ys rest = y ∷ ys
insert_at Ordering.gt x y ys rest = y ∷ rest

insert_sorted : String → List String → List String
insert_sorted x [] = x ∷ []
insert_sorted x (y ∷ ys) = insert_at (String.compare x y) x y ys (insert_sorted x ys)

unfoldable pub sorted_set : List String → List String
unfolding insert_sorted
sorted_set [] = []
sorted_set (x ∷ xs) = insert_sorted x (sorted_set xs)

-- `raw.replace(",", " ").split()`: the runs of characters that are no space and no comma.
is_separator : Char → Bool
unfolding is_space
is_separator c = nat_beq (code c) b',' || is_space c

-- `word` is the run being read.
split_from : String → String → List String
unfolding is_separator
split_from word String.[] = if word == "" then [] else word ∷ []
split_from word (String.◌∷◌ c s) =
    let closed = split_from "" s in
    let longer = split_from (String.◌++◌ word (String.◌∷◌ c "")) s in
    if is_separator c then (if word == "" then closed else word ∷ closed) else longer

unfoldable pub split_list : String → List String
unfolding split_from
split_list raw = split_from "" raw

split_list_run : split_list " code, sse,,stdio " ≡ "code" ∷ "sse" ∷ "stdio" ∷ []
unfolding split_list
split_list_run = refl

-- `str(value or default)`, where no value and the empty text are falsy.
abbrev pub or_default : Option String → String → String
or_default none d = d
or_default (some s) d = if s == "" then d else s

elem-insert_sorted :
    (a x : String) (ys : List String) → elem a (insert_sorted x ys) ≡ ((a == x) || elem a ys)
unfolding insert_sorted
elem-insert_sorted a x [] = refl
elem-insert_sorted a x (y ∷ ys) = ground (arith, elem-insert_sorted a x ys, path_by_compare x y)

-- Sorting changes no membership.
pub elem-sorted_set : (a : String) (xs : List String) → elem a (sorted_set xs) ≡ elem a xs
unfolding sorted_set
elem-sorted_set a [] = refl
elem-sorted_set a (x ∷ xs) =
    elem-insert_sorted a x (sorted_set xs) ∙ ap (λ b. (a == x) || b) (elem-sorted_set a xs)

strip-lower_run : lower (strip " \tActive\n") ≡ "active"
unfolding strip lower
strip-lower_run = refl

sorted_set_run : sorted_set ("b/x" ∷ "a/y" ∷ "b/x" ∷ []) ≡ "a/y" ∷ "b/x" ∷ []
unfolding sorted_set
sorted_set_run = refl
