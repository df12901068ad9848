-- ===== src/Base/Lists.antt =====
-- Lists measured by native numbers, and predicates over all or some elements.
use Prim.Native.Nat.{ℕ, suc, ◌+◌}
use mathlib.Core.Path.{◌≡◌}
use mathlib.Core.Bool.{Bool, false, ◌||◌}
use mathlib.Core.List.{List, [], ◌∷◌, ◌++◌}
use native.Mathlib.Omega.{arith}
use mathlib.Core.Path.{sym}
use mathlib.Core.Bool.{true}
use mathlib.Core.Logic.{inl, inr}
use mathlib.Core.List.{Memᴰ}
use Prim.Native.String.{String}
use text.Mathlib.TextEquality.{eq_iff}
use secure_net.Base.Tests.{◌==◌, text_eq, Bool-cases}

module _ {ℓ} {A : Type ℓ} where
  abbrev pub length : List A → ℕ
  length [] = 0
  length (x ∷ xs) = suc (length xs)

  -- `iter().any(p)`
  abbrev pub any : (A → Bool) → List A → Bool
  any p [] = false
  any p (x ∷ xs) = p x || any p xs

  pub length-append : (xs ys : List A) → length (xs ++ ys) ≡ length xs + length ys
  length-append [] ys = omega arith
  length-append (x ∷ xs) ys = omega (arith, length-append xs ys)

module _ {ℓ κ} {A : Type ℓ} (P : A → Type κ) where
  abbrev pub All : List A → Type κ
  All [] = Unit
  All (x ∷ xs) = P x × All xs

  pub All-append : (xs ys : List A) → All xs → All ys → All (xs ++ ys)
  All-append [] ys _ h = h
  All-append (x ∷ xs) ys (p, h) k = (p, All-append xs ys h k)

-- `any` with an equality test is membership.
pub any_sound : (s : String) (l : List String) → any (λ id. id == s) l ≡ true → Memᴰ s l
any_sound s [] h = cc
any_sound s (x ∷ l) h = elim (Bool-cases (x == s)) [
  | inl same ↦ Memᴰ.head (sym ((eq_iff x s).0 same))
  | inr other ↦ Memᴰ.tail (any_sound s l (rw other at h))
]

pub any_complete : (s : String) (l : List String) → Memᴰ s l → any (λ id. id == s) l ≡ true
any_complete s [] m = elim m [ ]
any_complete s (x ∷ l) (Memᴰ.head e) = rw ((eq_iff x s).1 (sym e))
any_complete s (x ∷ l) (Memᴰ.tail m) = ground (arith, any_complete s l m)
