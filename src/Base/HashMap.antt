-- ===== src/Base/HashMap.antt =====
-- `std::collections::HashMap`, as a list of entries. Rust leaves the order of iteration open: no
-- statement depends on it.
use mathlib.Core.Path.{◌≡◌, refl}
use mathlib.Core.Bool.{Bool, true, false}
use mathlib.Core.Option.{Option, none, some}
use mathlib.Core.List.{List, [], ◌∷◌, map}
use native.Mathlib.Omega.{arith}
use secure_net.Base.Tests.{Key, if◌then◌else◌}

abbrev pub HashMap : Type 0 → Type 0 → Type 0
HashMap K V = List (K × V)

abbrev pub keys : {K V : Type 0} → HashMap K V → List K
keys m = map (λ e. e.0) m

abbrev pub values : {K V : Type 0} → HashMap K V → List V
values m = map (λ e. e.1) m

module _ {K V : Type 0} ⦃e : Key K⦄ where
  unfoldable pub get : K → HashMap K V → Option V
  get k [] = none
  get k ((j, v) ∷ m) = if e.same j k then some v else get k m

  unfoldable pub contains_key : K → HashMap K V → Bool
  contains_key k m = elim (get k m) [ none ↦ false | some _ ↦ true ]

  unfoldable pub remove : K → HashMap K V → HashMap K V
  remove k [] = []
  remove k ((j, v) ∷ m) = let rest = remove k m in if e.same j k then rest else (j, v) ∷ rest

  unfoldable pub insert : K → V → HashMap K V → HashMap K V
  unfolding remove
  insert k v m = (k, v) ∷ remove k m

  unfoldable pub retain : (K → V → Bool) → HashMap K V → HashMap K V
  retain p [] = []
  retain p ((j, v) ∷ m) = let rest = retain p m in if p j v then (j, v) ∷ rest else rest

  -- No key stands twice.
  abbrev pub IsMap : HashMap K V → Type 0
  IsMap [] = Unit
  IsMap ((j, v) ∷ m) = (get j m ≡ none) × IsMap m

  pub get-remove :
      (k j : K) (m : HashMap K V) → get j (remove k m) ≡ (if e.same k j then none else get j m)
  unfolding get remove
  get-remove k j [] = ground arith
  get-remove k j ((i, v) ∷ m) =
      ground (arith, get-remove k j m, e.same_iff i k, e.same_iff i j, e.same_iff k j)

  pub get-insert :
      (k j : K) (v : V) (m : HashMap K V)
      → get j (insert k v m) ≡ (if e.same k j then some v else get j m)
  unfolding get insert
  get-insert k j v m = ground (arith, get-remove k j m)

  get-retain-none :
      (p : K → V → Bool) (j : K) (m : HashMap K V) → get j m ≡ none → get j (retain p m) ≡ none
  unfolding get retain
  get-retain-none p j [] h = refl
  get-retain-none p j ((i, v) ∷ m) h = ground (arith, get-retain-none p j m)

  -- What `retain` leaves is what passes the test.
  pub get-retain :
      (p : K → V → Bool) (j : K) (m : HashMap K V)
      → IsMap m
      → get j (retain p m)
        ≡ elim (get j m) [ none ↦ none | some v ↦ if p j v then some v else none ]
  unfolding get retain
  get-retain p j [] d = refl
  get-retain p j ((i, v) ∷ m) d =
      ground (arith, get-retain p j m d.1, get-retain-none p i m d.0, e.same_iff i j)

  pub remove-IsMap : (k : K) (m : HashMap K V) → IsMap m → IsMap (remove k m)
  unfolding remove
  remove-IsMap k [] d = tt
  remove-IsMap k ((i, v) ∷ m) d = ground (arith, get-remove k i m, remove-IsMap k m d.1)

  pub insert-IsMap : (k : K) (v : V) (m : HashMap K V) → IsMap m → IsMap (insert k v m)
  unfolding insert
  insert-IsMap k v m d = (ground (arith, get-remove k k m, e.same_iff k k), remove-IsMap k m d)

  pub retain-IsMap : (p : K → V → Bool) (m : HashMap K V) → IsMap m → IsMap (retain p m)
  unfolding retain
  retain-IsMap p [] d = tt
  retain-IsMap p ((i, v) ∷ m) d = ground (arith, get-retain-none p i m d.0, retain-IsMap p m d.1)
