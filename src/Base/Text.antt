-- ===== src/Base/Text.antt =====
-- `str::strip_prefix` and `[String]::join`.
use Prim.Native.Char.{code}
use Prim.Native.String.{String, ◌++◌}
use mathlib.Core.Path.{◌≡◌, refl, sym, ap, ap₂, ◌∙◌}
use mathlib.Core.Option.{Option, none, some}
use mathlib.Core.List.{List, [], ◌∷◌}
use text.Mathlib.TextEquality.{Char-path}
use text.Mathlib.TextLemmas.{nil-append, cons-append}
use text.Mathlib.Text.{◌==◌ as text_beq}
use mathlib.Core.Bool.{Bool, ◌&&◌, ◌||◌}
use Prim.Native.Nat.{ℕ}
use secure_net.Base.Tests.{leb, nat_beq, nat_beq_iff, if◌then◌else◌, Bool-cases}
use mathlib.Core.Logic.{inl, inr}

unfoldable pub strip_prefix : String → String → Option String
strip_prefix String.[] s = some s
strip_prefix (String.◌∷◌ c p) String.[] = none
strip_prefix (String.◌∷◌ c p) (String.◌∷◌ e s) =
    if nat_beq (code c) (code e) then strip_prefix p s else none

pub strip_prefix-append : (p r : String) → strip_prefix p (p ++ r) ≡ some r
unfolding strip_prefix
strip_prefix-append String.[] r = ap some (nil-append r)
strip_prefix-append (String.◌∷◌ c p) r =
    rw (cons-append, (nat_beq_iff (code c) (code c)).1 refl) (strip_prefix-append p r)

pub eq-append_of_strip_prefix : (p s : String) {r : String} → strip_prefix p s ≡ some r → s ≡ p ++ r
unfolding strip_prefix
eq-append_of_strip_prefix String.[] s {r} h = let same : s ≡ r = cc in same ∙ sym (nil-append r)
eq-append_of_strip_prefix (String.◌∷◌ c p) String.[] h = cc
eq-append_of_strip_prefix (String.◌∷◌ c p) (String.◌∷◌ e s) {r} h =
    elim (Bool-cases (nat_beq (code c) (code e))) [
      | inl same ↦
          ap₂ String.◌∷◌ (sym (Char-path c e ((nat_beq_iff _ _).0 same)))
            (eq-append_of_strip_prefix p s (rw same at h))
          ∙ sym (cons-append c p r)
      | inr other ↦ cc (h, other)
    ]

-- `join(",")`
unfoldable pub join_comma : List String → String
join_comma [] = ""
join_comma (s ∷ []) = s
join_comma (s ∷ t ∷ ts) = s ++ ("," ++ join_comma (t ∷ ts))

-- The code points of a text: its bytes, if it is ASCII.
abbrev pub codes : String → List ℕ
codes String.[] = []
codes (String.◌∷◌ c s) = code c ∷ codes s

-- Unicode's White_Space.
abbrev is_whitespace : ℕ → Bool
is_whitespace c =
    (leb 9 c && leb c 13)
    || (nat_beq c 32
        || (nat_beq c 133
            || (nat_beq c 160
                || (nat_beq c 5760
                    || ((leb 8192 c && leb c 8202)
                        || ((leb 8232 c && leb c 8233)
                            || (nat_beq c 8239 || (nat_beq c 8287 || nat_beq c 12288))))))))

trim_start : String → String
trim_start String.[] = ""
trim_start (String.◌∷◌ c s) =
    let rest = trim_start s in if is_whitespace (code c) then rest else String.◌∷◌ c s

trim_end : String → String
trim_end String.[] = ""
trim_end (String.◌∷◌ c s) =
    let rest = trim_end s in
    if is_whitespace (code c) && text_beq rest "" then "" else String.◌∷◌ c rest

-- `str::trim`
unfoldable pub trim : String → String
unfolding trim_start trim_end
trim s = trim_end (trim_start s)

trimmed : trim " \tab c\n" ≡ "ab c"
unfolding trim
trimmed = refl
