-- ===== src/State/Diff.antt =====
-- The line diff of two workflow files (state/diff_util.go): the table of longest common
-- subsequences, the edit script read back from its end, and the unified diff.
pub mod Script
pub mod Unified
use daggle.Prelude.{
  ℕ, zero, suc, ◌+◌, String, ◌≡◌, refl, Bool, true, false, ◌&&◌, List, [], ◌∷◌, ◌++◌, map, Option,
  none, some, ◌==◌, if◌then◌else◌, leb, nat_eq, length,
}

pub data Kind : Type 0 where
  equal : Kind
  deletion : Kind
  insertion : Kind

pub record DiffOp : Type 0 where
  pub kind : Kind
  pub text : String

-- dp[i][j], of the entries to the left, above and on the diagonal
abbrev pub cell : String → String → ℕ → ℕ → ℕ → ℕ
cell x y left up diagonal = if x == y then suc diagonal else if leb left up then up else left

-- The entries of a row behind the first: `left` is the entry before, `diagonal` the one above it.
unfoldable pub fill_row : String → ℕ → ℕ → List String → List ℕ → List ℕ
fill_row x left diagonal [] above = []
fill_row x left diagonal (y ∷ b) [] = []
fill_row x left diagonal (y ∷ b) (up ∷ above) =
    let v = cell x y left up diagonal in v ∷ fill_row x v up b above

abbrev pub next_row : String → List String → List ℕ → List ℕ
next_row x b [] = []
next_row x b (up ∷ above) = 0 ∷ fill_row x 0 up b above

-- The rows of `dp`, from one row on.
unfoldable pub fill_rows : List String → List String → List ℕ → List (List ℕ)
unfolding fill_row
fill_rows [] b row = row ∷ []
fill_rows (x ∷ a) b row = row ∷ fill_rows a b (next_row x b row)

abbrev pub zeros : List String → List ℕ
zeros [] = 0 ∷ []
zeros (y ∷ b) = 0 ∷ zeros b

unfoldable pub dp_table : List String → List String → List (List ℕ)
unfolding fill_rows
dp_table a b = fill_rows a b (zeros b)

abbrev pub entry : List ℕ → ℕ → ℕ
entry [] j = 0
entry (v ∷ row) zero = v
entry (v ∷ row) (suc j) = entry row j

-- dp[i][j]
abbrev pub dp : List (List ℕ) → ℕ → ℕ → ℕ
dp [] i j = 0
dp (row ∷ rows) zero j = entry row j
dp (row ∷ rows) (suc i) j = dp rows i j

abbrev pub insert_all : List String → List DiffOp
insert_all [] = []
insert_all (y ∷ rb) = record { kind = insertion; text = y } ∷ insert_all rb

abbrev pub delete_all : List String → List DiffOp
delete_all [] = []
delete_all (x ∷ ra) = record { kind = deletion; text = x } ∷ delete_all ra

-- The way back from the end, at the line `x` of a with `ra` before it; `up` goes on from `ra`. The
-- lines that are left are given from the last to the first, so that their numbers are i and j.
unfoldable pub back_row :
    List (List ℕ) → String → List String → (List String → List DiffOp) → List String → List DiffOp
back_row t x ra up [] = delete_all (x ∷ ra)
back_row t x ra up (y ∷ rb) =
    let stay = back_row t x ra up rb in
    if x == y
    then record { kind = equal; text = x } ∷ up rb
    else if leb (dp t (suc (length ra)) (length rb)) (dp t (length ra) (suc (length rb)))
    then record { kind = deletion; text = x } ∷ up (y ∷ rb)
    else record { kind = insertion; text = y } ∷ stay

unfoldable pub back : List (List ℕ) → List String → List String → List DiffOp
unfolding back_row
back t [] rb = insert_all rb
back t (x ∷ ra) rb = back_row t x ra (back t ra) rb

abbrev pub reverse {ℓ} : {A : Type ℓ} → List A → List A
reverse [] = []
reverse (x ∷ xs) = reverse xs ++ x ∷ []

-- The script in the order of the lines.
unfoldable pub edit_script : List String → List String → List DiffOp
unfolding back dp_table
edit_script a b = reverse (back (dp_table a b) (reverse a) (reverse b))

abbrev pub is_equal : Kind → Bool
is_equal equal = true
is_equal deletion = false
is_equal insertion = false

abbrev pub all_equal : List DiffOp → Bool
all_equal [] = true
all_equal (op ∷ ops) = is_equal op.kind && all_equal ops

-- diffOps: nothing where no line is deleted or inserted
unfoldable pub diff_ops : List String → List String → List DiffOp
unfolding edit_script
diff_ops a b = let ops = edit_script a b in if all_equal ops then [] else ops

-- The one hunk of `unifiedDiff`, before it is printed: the numbers of its header and its lines,
-- each with its sign.
pub record Hunk : Type 0 where
  pub a_start : ℕ
  pub a_len : ℕ
  pub b_start : ℕ
  pub b_len : ℕ
  pub lines : List (Kind × String)

abbrev pub in_a : Kind → ℕ
in_a equal = 1
in_a deletion = 1
in_a insertion = 0

abbrev pub in_b : Kind → ℕ
in_b equal = 1
in_b deletion = 0
in_b insertion = 1

-- aLen and bLen
abbrev pub side_len : (Kind → ℕ) → List DiffOp → ℕ
side_len f [] = 0
side_len f (op ∷ ops) = f op.kind + side_len f ops

abbrev pub signed_lines : List DiffOp → List (Kind × String)
signed_lines [] = []
signed_lines (op ∷ ops) = (op.kind, op.text) ∷ signed_lines ops

abbrev pub start_of : ℕ → ℕ
start_of zero = 0
start_of (suc n) = 1

-- unifiedDiff: `none` is the empty text
abbrev pub hunk_of : List DiffOp → Option Hunk
hunk_of [] = none
hunk_of (op ∷ ops) =
    let a_len = side_len in_a (op ∷ ops) in
    let b_len = side_len in_b (op ∷ ops) in
    some (record {
      a_start = start_of a_len;
      a_len = a_len;
      b_start = start_of b_len;
      b_len = b_len;
      lines = signed_lines (op ∷ ops);
    })

unfoldable pub unified_diff : List String → List String → Option Hunk
unfolding diff_ops
unified_diff a b = hunk_of (diff_ops a b)

-- The lines of a script that each file has.
abbrev pub in_old : DiffOp → List String
in_old op = elim op.kind [ insertion ↦ [] | _ ↦ op.text ∷ [] ]

abbrev pub in_new : DiffOp → List String
in_new op = elim op.kind [ deletion ↦ [] | _ ↦ op.text ∷ [] ]

abbrev pub lines : (DiffOp → List String) → List DiffOp → List String
lines f [] = []
lines f (op ∷ ops) = f op ++ lines f ops

changed :
    diff_ops ("a" ∷ "b" ∷ "c" ∷ []) ("a" ∷ "c" ∷ "d" ∷ [])
    ≡ record { kind = equal; text = "a" }
      ∷ record { kind = deletion; text = "b" }
      ∷ record { kind = equal; text = "c" }
      ∷ record { kind = insertion; text = "d" }
      ∷ []
unfolding diff_ops
changed = refl
