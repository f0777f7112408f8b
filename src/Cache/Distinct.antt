-- ===== src/Cache/Distinct.antt =====
-- What the key of a step tells apart: the parts that are joined can be read back from the joined
-- text where no part has a NUL in it.
use daggle.Prelude.{
  ℕ, ◌≡◌, ◌≢◌, refl, sym, ap, Bool, true, false, List, [], ◌∷◌, ◌++◌, map, nat_eq, All, arith,
  All-append,
}
use daggle.Go.Text.{Text, has_char}
use daggle.Go.Sort.{sort_texts}
use daggle.Cache.{
  Texts, join_parts, env_part, output_parts, output_part, renv_part, text_keys, step_parts,
}

abbrev pub HasNoNul : Text → Type 0
HasNoNul s = has_char 0 s ≡ false

-- Two texts without NUL that stand before one are the same.
cut_at_nul :
    (p q x y : Text) → HasNoNul p → HasNoNul q → p ++ (0 ∷ x) ≡ q ++ (0 ∷ y) → (p ≡ q) × (x ≡ y)
cut_at_nul [] [] x y h k e = (refl, cc)
cut_at_nul [] (d ∷ q) x y h k e = ground (arith, h, k, e)
cut_at_nul (c ∷ p) [] x y h k e = ground (arith, h, k, e)
cut_at_nul (c ∷ p) (d ∷ q) x y h k e =
    let ih = cut_at_nul p q x y (ground (arith, h)) (ground (arith, k)) cc in (cc, ih.1)

nul_inside : (p x : Text) → has_char 0 (p ++ (0 ∷ x)) ≡ true
nul_inside [] x = refl
nul_inside (c ∷ p) x = ground (arith, nul_inside p x)

no_nul_inside : (p q x : Text) → HasNoNul p → p ≢ q ++ (0 ∷ x)
no_nul_inside p q x h e = ground (arith, h, e, nul_inside q x)

pub join_parts-injective :
    (p q : Text) (ps qs : List Text)
    → All HasNoNul (p ∷ ps)
    → All HasNoNul (q ∷ qs)
    → join_parts (p ∷ ps) ≡ join_parts (q ∷ qs)
    → p ∷ ps ≡ q ∷ qs
unfolding join_parts
join_parts-injective p q [] [] h k e = ap (λ t. t ∷ []) e
join_parts-injective p q [] (b ∷ qs) h k e = absurd (no_nul_inside p q _ h.0 e)
join_parts-injective p q (a ∷ ps) [] h k e = absurd (no_nul_inside q p _ k.0 (sym e))
join_parts-injective p q (a ∷ ps) (b ∷ qs) h k e =
    let (first, rest) = cut_at_nul p q _ _ h.0 k.0 e in
    let ih = join_parts-injective a b ps qs h.1 k.1 rest in cc

-- Parts that begin with `c`, before parts that do not.
abbrev begins : ℕ → Text → Bool
begins c [] = false
begins c (d ∷ s) = nat_eq d c

parts_cut :
    (c : ℕ) (xs xs' ys ys' : List Text)
    → All (λ s. begins c s ≡ true) xs
    → All (λ s. begins c s ≡ true) xs'
    → All (λ s. begins c s ≡ false) ys
    → All (λ s. begins c s ≡ false) ys'
    → xs ++ ys ≡ xs' ++ ys'
    → (xs ≡ xs') × (ys ≡ ys')
parts_cut c [] [] ys ys' hx hx' hy hy' e = (refl, e)
parts_cut c [] (x ∷ xs') [] ys' hx hx' hy hy' e = cc
parts_cut c [] (x ∷ xs') (y ∷ ys) ys' hx hx' hy hy' e =
    let same : y ≡ x = cc in ground (arith, ap (begins c) same, hx'.0, hy.0)
parts_cut c (x ∷ xs) [] ys [] hx hx' hy hy' e = cc
parts_cut c (x ∷ xs) [] ys (y ∷ ys') hx hx' hy hy' e =
    let same : x ≡ y = cc in ground (arith, ap (begins c) same, hx.0, hy'.0)
parts_cut c (x ∷ xs) (x' ∷ xs') ys ys' hx hx' hy hy' e =
    let ih = parts_cut c xs xs' ys ys' hx.1 hx'.1 hy hy' cc in (cc, ih.1)

parts_begin :
    (c : ℕ) (f : Text → Text) (b : Bool)
    → ((s : Text) → begins c (f s) ≡ b)
    → (xs : List Text) → All (λ s. begins c s ≡ b) (map f xs)
parts_begin c f b h [] = tt
parts_begin c f b h (x ∷ xs) = (h x, parts_begin c f b h xs)

renv_begins :
    (lock : Text) (c : ℕ) → nat_eq b'r' c ≡ false → All (λ s. begins c s ≡ false) (renv_part lock)
renv_begins [] c h = tt
renv_begins (d ∷ lock) c h = (h, tt)

renv_part-injective : (l l' : Text) → renv_part l ≡ renv_part l' → l ≡ l'
renv_part-injective [] [] e = refl
renv_part-injective [] (d ∷ l') e = cc
renv_part-injective (c ∷ l) [] e = cc
renv_part-injective (c ∷ l) (d ∷ l') e = cc

map-env_part-injective : (xs ys : List Text) → map env_part xs ≡ map env_part ys → xs ≡ ys
map-env_part-injective [] [] e = refl
map-env_part-injective [] (y ∷ ys) e = cc
map-env_part-injective (x ∷ xs) [] e = cc
map-env_part-injective (x ∷ xs) (y ∷ ys) e = let ih = map-env_part-injective xs ys cc in cc

tail_begins :
    (m : Texts) (lock : Text) → All (λ s. begins b'e' s ≡ false) (output_parts m ++ renv_part lock)
tail_begins m lock =
    All-append _ (output_parts m) (renv_part lock)
      (parts_begin b'e' (output_part m) false (λ k. refl) (sort_texts (text_keys m)))
      (renv_begins lock b'e' refl)

-- Where no part has a NUL in it, the text that is hashed determines the kind of the step, the sorted
-- variables, the lines of the outputs and the hash of renv.lock.
pub join_parts-step_parts-injective :
    (kind kind' : Text) (env env' : List Text) (m m' : Texts) (lock lock' : Text)
    → All HasNoNul (step_parts kind env m lock)
    → All HasNoNul (step_parts kind' env' m' lock')
    → join_parts (step_parts kind env m lock) ≡ join_parts (step_parts kind' env' m' lock')
    → (kind ≡ kind')
      × (sort_texts env ≡ sort_texts env')
      × (output_parts m ≡ output_parts m')
      × (lock ≡ lock')
unfolding step_parts
join_parts-step_parts-injective kind kind' env env' m m' lock lock' h h' e =
    let parts = join_parts-injective kind kind' _ _ h h' e in
    let (envs, tails) =
      parts_cut b'e' (map env_part (sort_texts env)) (map env_part (sort_texts env'))
        (output_parts m ++ renv_part lock) (output_parts m' ++ renv_part lock')
        (parts_begin b'e' env_part true (λ s. refl) (sort_texts env))
        (parts_begin b'e' env_part true (λ s. refl) (sort_texts env')) (tail_begins m lock)
        (tail_begins m' lock') cc in
    let (outputs, locks) =
      parts_cut b'o' (output_parts m) (output_parts m') (renv_part lock) (renv_part lock')
        (parts_begin b'o' (output_part m) true (λ k. refl) (sort_texts (text_keys m)))
        (parts_begin b'o' (output_part m') true (λ k. refl) (sort_texts (text_keys m')))
        (renv_begins lock b'o' refl) (renv_begins lock' b'o' refl) tails in
    (
      cc,
      map-env_part-injective (sort_texts env) (sort_texts env') envs,
      outputs,
      renv_part-injective lock lock' locks,
    )
