-- ===== src/State/Diff/Unified.antt =====
-- When there is a diff, and what its header says.
use daggle.Prelude.{
  ℕ, String, ◌≡◌, refl, ◌↔◌, ◌⊎◌, inl, inr, true, List, [], ◌∷◌, ◌++◌, none, some, arith, eq_refl,
  length, length-append, Bool-cases, sym, ap, ◌∙◌, and-true, subst, List-cases, ◌≢◌,
}
use daggle.State.Diff.{
  DiffOp, Kind, equal, deletion, insertion, back_row, back, reverse, dp_table, edit_script,
  is_equal, all_equal, diff_ops, in_old, in_new, lines, side_len, in_a, in_b, Hunk, hunk_of,
  unified_diff,
}
use daggle.State.Diff.Script.{edit_script-lines}

all_equal-append :
    (xs ys : List DiffOp) → all_equal xs ≡ true → all_equal ys ≡ true → all_equal (xs ++ ys) ≡ true
all_equal-append [] ys h k = k
all_equal-append (x ∷ xs) ys h k =
    let (here, rest) = and-true (is_equal x.kind) (all_equal xs) h in
    rw (here, all_equal-append xs ys rest k) refl

all_equal-reverse : (ops : List DiffOp) → all_equal ops ≡ true → all_equal (reverse ops) ≡ true
all_equal-reverse [] h = refl
all_equal-reverse (op ∷ ops) h =
    let (here, rest) = and-true (is_equal op.kind) (all_equal ops) h in
    all_equal-append (reverse ops) (op ∷ []) (all_equal-reverse ops rest) (rw here refl)

back-same : (t : List (List ℕ)) (ra : List String) → all_equal (back t ra ra) ≡ true
unfolding back back_row
back-same t [] = refl
back-same t (x ∷ ra) = rw (eq_refl x) (back-same t ra)

same_kind :
    (k : Kind) (text : String)
    → is_equal k ≡ true
    → in_old (record { kind = k; text = text }) ≡ in_new (record { kind = k; text = text })
same_kind equal text h = refl
same_kind deletion text h = cc
same_kind insertion text h = cc

all_equal-lines : (ops : List DiffOp) → all_equal ops ≡ true → lines in_old ops ≡ lines in_new ops
all_equal-lines [] h = refl
all_equal-lines (op ∷ ops) h =
    let (here, rest) = and-true (is_equal op.kind) (all_equal ops) h in
    rw (same_kind op.kind op.text here, all_equal-lines ops rest) refl

edit_script-same : (a : List String) → all_equal (edit_script a a) ≡ true
unfolding edit_script
edit_script-same a =
    all_equal-reverse (back (dp_table a a) (reverse a) (reverse a))
      (back-same (dp_table a a) (reverse a))

-- `diffOps` returns nothing exactly for equal files.
diff_ops-nil_iff : (a b : List String) → (diff_ops a b ≡ []) ↔ (a ≡ b)
unfolding diff_ops
diff_ops-nil_iff a b =
    let (old, new) = edit_script-lines a b in
    (
      λ h. elim (Bool-cases (all_equal (edit_script a b))) [
        | inl e ↦ sym old ∙ all_equal-lines (edit_script a b) e ∙ new
        | inr e ↦
            let empty : edit_script a b ≡ [] = rw e at h in
            absurd (ground (arith, e, ap all_equal empty))
      ],
      λ h. subst (λ c. diff_ops a c ≡ []) h (rw (edit_script-same a) refl),
    )

kind-in_a : (k : Kind) (text : String) → in_a k ≡ length (in_old (record { kind = k; text = text }))
kind-in_a equal text = refl
kind-in_a deletion text = refl
kind-in_a insertion text = refl

kind-in_b : (k : Kind) (text : String) → in_b k ≡ length (in_new (record { kind = k; text = text }))
kind-in_b equal text = refl
kind-in_b deletion text = refl
kind-in_b insertion text = refl

side_len-in_a : (ops : List DiffOp) → side_len in_a ops ≡ length (lines in_old ops)
side_len-in_a [] = refl
side_len-in_a (op ∷ ops) = omega (
  arith,
  kind-in_a op.kind op.text,
  side_len-in_a ops,
  length-append (in_old op) (lines in_old ops),
)

side_len-in_b : (ops : List DiffOp) → side_len in_b ops ≡ length (lines in_new ops)
side_len-in_b [] = refl
side_len-in_b (op ∷ ops) = omega (
  arith,
  kind-in_b op.kind op.text,
  side_len-in_b ops,
  length-append (in_new op) (lines in_new ops),
)

-- A diff whose header counts the lines of both files.
abbrev pub CountsLines : List String → List String → Hunk → Type 0
CountsLines a b h = (h.a_len ≡ length a) × (h.b_len ≡ length b)

hunk_of-CountsLines :
    (a b : List String) (op : DiffOp) (ops : List DiffOp)
    → lines in_old (op ∷ ops) ≡ a
    → lines in_new (op ∷ ops) ≡ b
    → (h : Hunk) × (hunk_of (op ∷ ops) ≡ some h) × CountsLines a b h
hunk_of-CountsLines a b op ops old new =
    (_, refl, (side_len-in_a (op ∷ ops) ∙ ap length old, side_len-in_b (op ∷ ops) ∙ ap length new))

nil-cons : (op : DiffOp) (ops : List DiffOp) → ¬ ◌≡◌ {A = List DiffOp} [] (op ∷ ops)
nil-cons op ops h = cc

diff_ops-edit_script :
    (a b : List String) (op : DiffOp) (ops : List DiffOp)
    → diff_ops a b ≡ op ∷ ops
    → edit_script a b ≡ op ∷ ops
unfolding diff_ops
diff_ops-edit_script a b op ops h = elim (Bool-cases (all_equal (edit_script a b))) [
  | inl e ↦ absurd (nil-cons op ops (rw e at h))
  | inr e ↦ rw e at h
]

-- `unifiedDiff` is empty exactly for equal files; otherwise the header of its hunk gives the
-- numbers of lines of the two files.
pub unified_diff_cases :
    (a b : List String)
    → (unified_diff a b ≡ none) × (a ≡ b)
      ⊎ ((h : Hunk) × (unified_diff a b ≡ some h) × (a ≢ b) × CountsLines a b h)
unfolding unified_diff
unified_diff_cases a b = elim (List-cases (diff_ops a b)) [
  | inl e ↦ inl (ap hunk_of e, (diff_ops-nil_iff a b).0 e)
  | inr (op, ops, e) ↦
      let script = diff_ops-edit_script a b op ops e in
      let (old, new) = edit_script-lines a b in
      let (h, same, counted) =
        hunk_of-CountsLines a b op ops (rw script at old) (rw script at new) in
      inr (
        h,
        ap hunk_of e ∙ same,
        (λ eq. nil-cons op ops (sym ((diff_ops-nil_iff a b).1 eq) ∙ e)),
        counted,
      )
]
