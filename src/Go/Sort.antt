-- ===== src/Go/Sort.antt =====
-- sort.Strings, on texts as lists of bytes. Sorting gives the same list for every order in which the
-- texts come.
use daggle.Prelude.{
  ◌≡◌, refl, ap, subst, ◌∙◌, inl, inr, Bool, true, false, List, [], ◌∷◌, ltb, nat_eq, if◌then◌else◌,
  arith, Bool-cases,
}
use daggle.Go.Text.{Text}

-- a < b
unfoldable pub text_less : Text → Text → Bool
text_less [] [] = false
text_less [] (d ∷ t) = true
text_less (c ∷ s) [] = false
text_less (c ∷ s) (d ∷ t) = let rest = text_less s t in if nat_eq c d then rest else ltb c d

unfoldable pub insert_text : Text → List Text → List Text
insert_text x [] = x ∷ []
insert_text x (y ∷ ys) =
    let rest = insert_text x ys in if text_less y x then y ∷ rest else x ∷ y ∷ ys

unfoldable pub sort_texts : List Text → List Text
unfolding insert_text
sort_texts [] = []
sort_texts (x ∷ xs) = insert_text x (sort_texts xs)

text_less_asymm : (s t : Text) → text_less s t ≡ true → text_less t s ≡ false
unfolding text_less
text_less_asymm [] [] h = refl
text_less_asymm [] (d ∷ t) h = refl
text_less_asymm (c ∷ s) [] h = cc
text_less_asymm (c ∷ s) (d ∷ t) h = ground (arith, text_less_asymm s t)

text_less_connex : (s t : Text) → text_less s t ≡ false → text_less t s ≡ false → s ≡ t
unfolding text_less
text_less_connex [] [] h k = refl
text_less_connex [] (d ∷ t) h k = cc
text_less_connex (c ∷ s) [] h k = cc
text_less_connex (c ∷ s) (d ∷ t) h k = ground (arith, text_less_connex s t)

text_less_of_le_of_less :
    (s t u : Text) → text_less t s ≡ false → text_less t u ≡ true → text_less s u ≡ true
unfolding text_less
text_less_of_le_of_less [] [] u h k = k
text_less_of_le_of_less [] (d ∷ t) [] h k = cc
text_less_of_le_of_less [] (d ∷ t) (e ∷ u) h k = refl
text_less_of_le_of_less (c ∷ s) [] u h k = cc
text_less_of_le_of_less (c ∷ s) (d ∷ t) [] h k = cc
text_less_of_le_of_less (c ∷ s) (d ∷ t) (e ∷ u) h k = ground (arith, text_less_of_le_of_less s t u)

-- Two insertions commute, into any list.
insert_text_comm :
    (x y : Text) (l : List Text) → insert_text x (insert_text y l) ≡ insert_text y (insert_text x l)
unfolding insert_text
insert_text_comm x y [] =
    ground (arith, text_less_asymm x y, text_less_asymm y x, text_less_connex x y)
insert_text_comm x y (c ∷ l) = ground (
  arith,
  insert_text_comm x y l,
  text_less_asymm x y,
  text_less_asymm y x,
  text_less_connex x y,
  text_less_of_le_of_less x c y,
  text_less_of_le_of_less y c x,
)

-- Two orders of the same elements, as a `range` over a map may give.
pub data Reordered {ℓ} {A : Type ℓ} : List A → List A → Type ℓ where
  same : (xs : List A) → Reordered xs xs
  keep : (x : A) {xs ys : List A} → Reordered xs ys → Reordered (x ∷ xs) (x ∷ ys)
  swap : (x y : A) (xs : List A) → Reordered (x ∷ y ∷ xs) (y ∷ x ∷ xs)
  after : {xs ys zs : List A} → Reordered xs ys → Reordered ys zs → Reordered xs zs

pub sort_texts-Reordered : {xs ys : List Text} → Reordered xs ys → sort_texts xs ≡ sort_texts ys
unfolding sort_texts
sort_texts-Reordered (same xs) = refl
sort_texts-Reordered (keep x r) = ap (insert_text x) (sort_texts-Reordered r)
sort_texts-Reordered (swap x y xs) = insert_text_comm x y (sort_texts xs)
sort_texts-Reordered (after r q) = sort_texts-Reordered r ∙ sort_texts-Reordered q

Reordered_sym {ℓ} : {A : Type ℓ} {xs ys : List A} → Reordered xs ys → Reordered ys xs
Reordered_sym (same xs) = same xs
Reordered_sym (keep x r) = keep x (Reordered_sym r)
Reordered_sym (swap x y xs) = swap y x xs
Reordered_sym (after r q) = after (Reordered_sym q) (Reordered_sym r)

insert_text-Reordered : (x : Text) (l : List Text) → Reordered (x ∷ l) (insert_text x l)
unfolding insert_text
insert_text-Reordered x [] = same (x ∷ [])
insert_text-Reordered x (y ∷ l) = elim (Bool-cases (text_less y x)) [
  | inl less ↦ rw less (after (swap x y l) (keep y (insert_text-Reordered x l)))
  | inr other ↦ rw other (same (x ∷ y ∷ l))
]

sorted-Reordered : (xs : List Text) → Reordered xs (sort_texts xs)
unfolding sort_texts
sorted-Reordered [] = same []
sorted-Reordered (x ∷ xs) =
    after (keep x (sorted-Reordered xs)) (insert_text-Reordered x (sort_texts xs))

-- Lists that are sorted into the same list hold the same elements.
pub Reordered_of_sorted : (xs ys : List Text) → sort_texts xs ≡ sort_texts ys → Reordered xs ys
Reordered_of_sorted xs ys e =
    after (subst (Reordered xs) e (sorted-Reordered xs)) (Reordered_sym (sorted-Reordered ys))
