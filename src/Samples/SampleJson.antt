-- ===== src/Samples/SampleJson.antt =====
-- JSON values as trees.
use secure_net.Base.{
  ℕ, String, Bool, ◌≡◌, refl, List, [], ◌∷◌, Option, none, some, ◌==◌, text_eq, if◌then◌else◌,
  arith,
}
use secure_net.Base.HashMap.{HashMap, get}
use secure_net.External.Json.{Json}

mutual
  pub data Tree : Type 0 where
    str : String → Tree
    num : ℕ → Tree
    flag : Bool → Tree
    arr : Trees → Tree
    obj : Fields → Tree

  pub data Trees : Type 0 where
    nil : Trees
    cons : Tree → Trees → Trees

  pub data Fields : Type 0 where
    end : Fields
    entry : String → Tree → Fields → Fields

abbrev pub trees : List Tree → Trees
trees [] = nil
trees (t ∷ ts) = cons t (trees ts)

abbrev pub fields : HashMap String Tree → Fields
fields [] = end
fields ((k, t) ∷ m) = entry k t (fields m)

find : String → Fields → Option Tree
find k end = none
find k (entry j t m) = if j == k then some t else find k m

unfoldable pub field : Tree → String → Option Tree
unfolding find
field (obj m) k = find k m
field _ k = none

abbrev pub as_str : Tree → Option String
as_str (str s) = some s
as_str _ = none

pub field-object : (m : HashMap String Tree) (k : String) → field (obj (fields m)) k ≡ get k m
unfolding field get
field-object [] k = refl
field-object ((j, t) ∷ m) k = ground (arith, field-object m k)

abbrev pub sample_json : Json
sample_json = record {
  Value = Tree;
  string = str;
  number = num;
  bool = flag;
  array = λ ts. arr (trees ts);
  object = λ m. obj (fields m);
  field = field;
  as_str = as_str;
  as_str-string = λ s. refl;
  field-object = field-object;
}
