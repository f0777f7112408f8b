-- ===== src/Go/Map.antt =====
-- Go's maps with string keys, as association lists: the first entry of a key counts. What the
-- program does in the order of a `range` is said where it matters.
use daggle.Prelude.{
  String, ◌≡◌, refl, true, false, ◌||◌, List, [], ◌∷◌, Option, none, some, ◌==◌, eq_iff,
  if◌then◌else◌, arith, contains, ap, sym, ◌∙◌, inl, inr, Bool-cases,
}
use daggle.Dag.Model.{Assoc}

module _ {V : Type 0} where
  -- v, ok := m[k]
  abbrev pub get : Assoc V → String → Option V
  get [] k = none
  get ((j, v) ∷ m) k = let rest = get m k in if j == k then some v else rest

  -- m[k] = v
  abbrev pub put : Assoc V → String → V → Assoc V
  put [] k v = (k, v) ∷ []
  put ((j, w) ∷ m) k v = let rest = put m k v in if j == k then (k, v) ∷ m else (j, w) ∷ rest

  -- delete(m, k)
  abbrev pub delete : Assoc V → String → Assoc V
  delete [] k = []
  delete ((j, v) ∷ m) k = let rest = delete m k in if j == k then rest else (j, v) ∷ rest

  abbrev pub keys : Assoc V → List String
  keys [] = []
  keys ((k, v) ∷ m) = k ∷ keys m

  pub get-put :
      (m : Assoc V) (k j : String) (v : V)
      → get (put m k v) j ≡ (if k == j then some v else get m j)
  get-put [] k j v = refl
  get-put ((i, w) ∷ m) k j v = ground (arith, eq_iff k j, eq_iff i k, eq_iff i j, get-put m k j v)

  pub get-delete :
      (m : Assoc V) (k j : String) → get (delete m k) j ≡ (if k == j then none else get m j)
  get-delete [] k j = ground arith
  get-delete ((i, w) ∷ m) k j = ground (arith, eq_iff k j, eq_iff i k, eq_iff i j, get-delete m k j)

  pub contains-keys :
      (m : Assoc V) (k : String)
      → contains (keys m) k ≡ elim (get m k) [ none ↦ false | some v ↦ true ]
  contains-keys [] k = refl
  contains-keys ((j, v) ∷ m) k = ground (arith, contains-keys m k)

  pub keys-put :
      (m : Assoc V) (k j : String) (v : V)
      → contains (keys (put m k v)) j ≡ (k == j || contains (keys m) j)
  keys-put [] k j v = refl
  keys-put ((i, w) ∷ m) k j v = ground (arith, eq_iff k j, eq_iff i k, eq_iff i j, keys-put m k j v)

-- A map has one entry for each of its keys.
abbrev pub IsMap : {V : Type 0} → Assoc V → Type 0
IsMap [] = Unit
IsMap ((k, v) ∷ m) = (contains (keys m) k ≡ false) × IsMap m

module _ {V : Type 0} where
  pub put-IsMap : (m : Assoc V) (k : String) (v : V) → IsMap m → IsMap (put m k v)
  put-IsMap [] k v h = (refl, tt)
  put-IsMap ((j, w) ∷ m) k v h = elim (Bool-cases (j == k)) [
    | inl same ↦ rw same (ap (contains (keys m)) (sym ((eq_iff j k).0 same)) ∙ h.0, h.1)
    | inr other ↦
        rw other
          (keys-put m k j v ∙ ground (arith, h.0, eq_iff k j, eq_iff j k), put-IsMap m k v h.1)
  ]

  pub get_of_contains : (m : Assoc V) (k : String) → contains (keys m) k ≡ false → get m k ≡ none
  get_of_contains [] k h = refl
  get_of_contains ((j, v) ∷ m) k h = ground (arith, get_of_contains m k)
