-- ===== src/Base/Text.antt =====
-- What the source asks of texts: equality, and whether a text is blank after `trim`.
use Prim.Native.Nat.{ℕ, ◌+◌}
use Prim.Native.Char.{code}
use Prim.Native.String.{String}
use mathlib.Core.Bool.{Bool, true, false, ◌&&◌, ◌||◌}
use mathlib.Core.List.{List, [], ◌∷◌, ◌++◌}
use mathlib.Core.Option.{Option, none, some}
use text.Mathlib.Text.{◌==◌ as text_eq}
use cogeto.Base.Tests.{leb, ◌==◌, if◌then◌else◌}

abbrev pub str_eq : String → String → Bool
str_eq s t = text_eq s t

-- The white space and line terminators that ECMAScript's `trim` strips.
unfoldable pub is_space : ℕ → Bool
is_space c =
    (leb 9 c && leb c 13)
    || c == 32
    || c == 160
    || c == 5760
    || (leb 8192 c && leb c 8202)
    || c == 8232
    || c == 8233
    || c == 8239
    || c == 8287
    || c == 12288
    || c == 65279

-- `!s.trim()`.
unfoldable pub is_blank : String → Bool
unfolding is_space
is_blank String.[] = true
is_blank (String.◌∷◌ c s) = is_space (code c) && is_blank s

-- `s.length`: a character past the basic plane takes two units.
pub text_length : String → ℕ
text_length String.[] = 0
text_length (String.◌∷◌ c s) = (if leb 65536 (code c) then 2 else 1) + text_length s

abbrev pub opt_str_eq : Option String → Option String → Bool
opt_str_eq none none = true
opt_str_eq (some a) (some b) = str_eq a b
opt_str_eq _ _ = false

-- `list.includes(s)`.
abbrev pub has_text : String → List String → Bool
has_text s [] = false
has_text s (t ∷ ts) = str_eq t s || has_text s ts

-- `[...new Set(list)]` keeps the first of equal texts.
pub dedup_from : List String → List String → List String
dedup_from seen [] = []
dedup_from seen (s ∷ ss) =
    let fresh = s ∷ dedup_from (s ∷ seen) ss in
    let rest = dedup_from seen ss in elim (has_text s seen) [ true ↦ rest | false ↦ fresh ]

unfoldable pub dedup : List String → List String
unfolding dedup_from
dedup ss = dedup_from [] ss

-- The characters after a run of white space has become one space: `started` once a character is
-- out, `pending` where a space is due before the next one.
squeeze : Bool → Bool → String → String
squeeze started pending String.[] = ""
squeeze started pending (String.◌∷◌ c s) =
    let skip = squeeze started started s in
    let spaced = String.◌∷◌ " " (String.◌∷◌ c (squeeze true false s)) in
    let plain = String.◌∷◌ c (squeeze true false s) in
    if is_space (code c) then skip else if pending then spaced else plain

-- `text.replace(/\s+/g, ' ').trim()`.
unfoldable pub squeeze_spaces : String → String
unfolding squeeze is_space
squeeze_spaces s = squeeze false false s

-- `[...new Set([...a, ...b])]` keeps the order of first occurrence.
unfoldable pub union_texts : List String → List String → List String
unfolding dedup
union_texts a b = dedup (a ++ b)
