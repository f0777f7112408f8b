-- ===== src/State/Diff/Script.antt =====
-- What the edit script makes of the two files.
use daggle.Prelude.{
  ℕ, suc, String, ◌≡◌, refl, inl, inr, List, [], ◌∷◌, ◌++◌, ◌==◌, eq_iff, leb, length, Bool-cases,
  sym, ap, ◌∙◌, append-nil, append_assoc,
}
use daggle.State.Diff.{
  DiffOp, Kind, equal, deletion, insertion, dp, insert_all, delete_all, back_row, back, reverse,
  dp_table, edit_script, in_old, in_new, lines,
}

module _ {ℓ} {A : Type ℓ} where
  reverse-append : (xs ys : List A) → reverse (xs ++ ys) ≡ reverse ys ++ reverse xs
  reverse-append [] ys = sym (append-nil (reverse ys))
  reverse-append (x ∷ xs) ys =
      ap (λ l. l ++ x ∷ []) (reverse-append xs ys) ∙ append_assoc (reverse ys) (reverse xs) (x ∷ [])

  reverse-reverse : (xs : List A) → reverse (reverse xs) ≡ xs
  reverse-reverse [] = refl
  reverse-reverse (x ∷ xs) =
      reverse-append (reverse xs) (x ∷ []) ∙ ap (λ l. x ∷ l) (reverse-reverse xs)

module _ (f : DiffOp → List String) (single : (op : DiffOp) → reverse (f op) ≡ f op) where
  lines-append : (xs ys : List DiffOp) → lines f (xs ++ ys) ≡ lines f xs ++ lines f ys
  lines-append [] ys = refl
  lines-append (x ∷ xs) ys =
      ap (λ l. f x ++ l) (lines-append xs ys) ∙ sym (append_assoc (f x) (lines f xs) (lines f ys))

  lines-reverse : (ops : List DiffOp) → lines f (reverse ops) ≡ reverse (lines f ops)
  lines-reverse [] = refl
  lines-reverse (op ∷ ops) =
      lines-append (reverse ops) (op ∷ [])
      ∙ ap (λ l. lines f (reverse ops) ++ l) (append-nil (f op))
      ∙ ap (λ l. l ++ f op) (lines-reverse ops)
      ∙ ap (λ l. reverse (lines f ops) ++ l) (sym (single op))
      ∙ sym (reverse-append (f op) (lines f ops))

old_single :
    (k : Kind) (text : String)
    → reverse (in_old (record { kind = k; text = text }))
      ≡ in_old (record { kind = k; text = text })
old_single equal text = refl
old_single deletion text = refl
old_single insertion text = refl

pub single_old : (op : DiffOp) → reverse (in_old op) ≡ in_old op
single_old op = old_single op.kind op.text

new_single :
    (k : Kind) (text : String)
    → reverse (in_new (record { kind = k; text = text }))
      ≡ in_new (record { kind = k; text = text })
new_single equal text = refl
new_single deletion text = refl
new_single insertion text = refl

single_new : (op : DiffOp) → reverse (in_new op) ≡ in_new op
single_new op = new_single op.kind op.text

-- A script, read from its end, for these lines.
abbrev IsScript : List String → List String → List DiffOp → Type 0
IsScript ra rb ops = (lines in_old ops ≡ ra) × (lines in_new ops ≡ rb)

insert_all-IsScript : (rb : List String) → IsScript [] rb (insert_all rb)
insert_all-IsScript [] = (refl, refl)
insert_all-IsScript (y ∷ rb) =
    ((insert_all-IsScript rb).0, ap (λ l. y ∷ l) (insert_all-IsScript rb).1)

delete_all-IsScript : (ra : List String) → IsScript ra [] (delete_all ra)
delete_all-IsScript [] = (refl, refl)
delete_all-IsScript (x ∷ ra) =
    (ap (λ l. x ∷ l) (delete_all-IsScript ra).0, (delete_all-IsScript ra).1)

back_row-IsScript :
    (t : List (List ℕ)) (x : String) (ra : List String) (up : List String → List DiffOp)
    → ((rb : List String) → IsScript ra rb (up rb))
    → (rb : List String) → IsScript (x ∷ ra) rb (back_row t x ra up rb)
unfolding back_row
back_row-IsScript t x ra up h [] = delete_all-IsScript (x ∷ ra)
back_row-IsScript t x ra up h (y ∷ rb) = elim (Bool-cases (x == y)) [
  | inl e ↦
      rw e
        (ap (λ l. x ∷ l) (h rb).0, ap (λ l. x ∷ l) (h rb).1 ∙ ap (λ z. z ∷ rb) ((eq_iff x y).0 e))
  | inr e ↦
      elim (Bool-cases
        (leb (dp t (suc (length ra)) (length rb)) (dp t (length ra) (suc (length rb))))) [
          | inl l ↦ rw (e, l) (ap (λ l. x ∷ l) (h (y ∷ rb)).0, (h (y ∷ rb)).1)
          | inr l ↦
              let rest = back_row-IsScript t x ra up h rb in
              rw (e, l) (rest.0, ap (λ l. y ∷ l) rest.1)
        ]
]

back-IsScript : (t : List (List ℕ)) (ra rb : List String) → IsScript ra rb (back t ra rb)
unfolding back
back-IsScript t [] rb = insert_all-IsScript rb
back-IsScript t (x ∷ ra) rb = back_row-IsScript t x ra (back t ra) (back-IsScript t ra) rb

-- The edit script turns the old lines into the new: without its insertions it is the old file, and
-- without its deletions the new one.
pub edit_script-lines :
    (a b : List String)
    → (lines in_old (edit_script a b) ≡ a) × (lines in_new (edit_script a b) ≡ b)
unfolding edit_script
edit_script-lines a b =
    let script = back-IsScript (dp_table a b) (reverse a) (reverse b) in
    let ops = back (dp_table a b) (reverse a) (reverse b) in
    (
      lines-reverse in_old single_old ops ∙ ap reverse script.0 ∙ reverse-reverse a,
      lines-reverse in_new single_new ops ∙ ap reverse script.1 ∙ reverse-reverse b,
    )
