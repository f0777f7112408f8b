-- ===== src/Dag/Validate/Ordering.antt =====
-- `compareVersions` orders versions, and a lower bound on the version is kept by later versions.
use daggle.Prelude.{ℕ, zero, suc, ◌≡◌, refl, List, arith, true, false}
use daggle.Go.Text.{Text, trim_space, has_prefix, is_empty, split, drop}
use daggle.Dag.Validate.Version.{
  Order, less, equal, greater, compare_parts, compare_versions, others, is_less, passed,
  check_r_version, at_least,
}

abbrev pub flip : Order → Order
flip less = greater
flip equal = equal
flip greater = less

compare_parts-flip :
    (n : ℕ) (pa pb : List Text) → compare_parts n pb pa ≡ flip (compare_parts n pa pb)
unfolding compare_parts
compare_parts-flip zero pa pb = refl
compare_parts-flip (suc n) pa pb = ground (arith, compare_parts-flip n (others pa) (others pb))

-- Comparing the other way round gives the opposite answer.
pub compare_versions-flip : (a b : Text) → compare_versions b a ≡ flip (compare_versions a b)
unfolding compare_versions
compare_versions-flip a b = compare_parts-flip 3 (split b'.' a) (split b'.' b)

compare_parts_trans :
    (n : ℕ) (pa pb pc : List Text)
    → is_less (compare_parts n pa pb) ≡ false
    → is_less (compare_parts n pb pc) ≡ false
    → is_less (compare_parts n pa pc) ≡ false
unfolding compare_parts
compare_parts_trans zero pa pb pc h k = refl
compare_parts_trans (suc n) pa pb pc h k =
    ground (arith, compare_parts_trans n (others pa) (others pb) (others pc))

-- "Not older than" is transitive.
pub compare_versions_trans :
    (a b c : Text)
    → is_less (compare_versions a b) ≡ false
    → is_less (compare_versions b c) ≡ false
    → is_less (compare_versions a c) ≡ false
unfolding compare_versions
compare_versions_trans a b c = compare_parts_trans 3 (split b'.' a) (split b'.' b) (split b'.' c)

-- A constraint `>= v` that one version of R passes is passed by every version that is not older.
pub check_r_version_upward :
    (constraint v w : Text)
    → has_prefix (trim_space constraint) at_least ≡ true
    → is_empty v ≡ false
    → is_less (compare_versions w v) ≡ false
    → check_r_version constraint v ≡ passed
    → check_r_version constraint w ≡ passed
unfolding check_r_version
check_r_version_upward constraint v w bound given newer ok =
    ground (arith, compare_versions_trans w v (trim_space (drop 2 (trim_space constraint))))
