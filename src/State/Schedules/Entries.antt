-- ===== src/State/Schedules/Entries.antt =====
-- The list of the schedules of one workflow, whose ids differ.
use daggle.Prelude.{
  String, ◌≡◌, refl, ap, ◌∙◌, inl, inr, Bool, false, List, [], ◌∷◌, ◌++◌, Option, none, some, ◌==◌,
  eq_iff, if◌then◌else◌, arith, Bool-cases,
}
use daggle.State.Schedules.{ScheduleEntry, remove_entry, set_enabled}

unfoldable pub find_entry : String → List ScheduleEntry → Option ScheduleEntry
find_entry i [] = none
find_entry i (e ∷ l) = let rest = find_entry i l in if e.id == i then some e else rest

abbrev pub AreDistinct : List ScheduleEntry → Type 0
AreDistinct [] = Unit
AreDistinct (e ∷ l) = (find_entry e.id l ≡ none) × AreDistinct l

head_other :
    (x : ScheduleEntry) (l : List ScheduleEntry) (i : String)
    → find_entry i (x ∷ l) ≡ none
    → ((x.id == i) ≡ false) × (find_entry i l ≡ none)
unfolding find_entry
head_other x l i h = ground (arith, h)

pub find_entry-add :
    (i : String) (l : List ScheduleEntry) (e : ScheduleEntry)
    → find_entry e.id l ≡ none
    → find_entry i (l ++ e ∷ []) ≡ (if e.id == i then some e else find_entry i l)
unfolding find_entry
find_entry-add i [] e h = refl
find_entry-add i (x ∷ l) e h =
    ground (arith, eq_iff e.id i, eq_iff x.id i, eq_iff x.id e.id, find_entry-add i l e)

pub add-AreDistinct :
    (l : List ScheduleEntry) (e : ScheduleEntry)
    → find_entry e.id l ≡ none
    → AreDistinct l
    → AreDistinct (l ++ e ∷ [])
unfolding find_entry
add-AreDistinct [] e h k = (refl, tt)
add-AreDistinct (x ∷ l) e h k =
    let rest = head_other x l e.id h in
    (
      find_entry-add x.id l e rest.1
          ∙ ground (arith, rest.0, k.0, eq_iff x.id e.id, eq_iff e.id x.id),
      add-AreDistinct l e rest.1 k.1,
    )

-- What `RemoveSchedule` does to the list.
abbrev pub IsRemoved : String → List ScheduleEntry → Option (List ScheduleEntry) → Type 0
IsRemoved id l none = find_entry id l ≡ none
IsRemoved id l (some r) =
    ((e : ScheduleEntry) × (find_entry id l ≡ some e))
    × AreDistinct r
    × ((i : String) → find_entry i r ≡ (if id == i then none else find_entry i l))

IsRemoved-next :
    (id : String) (x : ScheduleEntry) (l : List ScheduleEntry) (o : Option (List ScheduleEntry))
    → (x.id == id) ≡ false
    → AreDistinct (x ∷ l)
    → IsRemoved id l o
    → IsRemoved id (x ∷ l) (elim o [ none ↦ none | some r ↦ some (x ∷ r) ])
unfolding find_entry
IsRemoved-next id x l none other k h = rw other h
IsRemoved-next id x l (some r) other k (h, d, f) = (
  (h.0, rw other h.1),
  (f x.id ∙ ground (arith, k.0), d),
  λ i. ground (arith, f i, eq_iff x.id i, eq_iff id i, eq_iff x.id id),
)

pub remove_entry-IsRemoved :
    (id : String) (l : List ScheduleEntry) → AreDistinct l → IsRemoved id l (remove_entry id l)
unfolding remove_entry find_entry
remove_entry-IsRemoved id [] k = refl
remove_entry-IsRemoved id (x ∷ l) k = elim (Bool-cases (x.id == id)) [
  | inl same ↦ rw same (
    (x, rw same refl),
    k.1,
    λ i. ground (
      arith,
      eq_iff x.id id,
      eq_iff id i,
      eq_iff x.id i,
      ap (λ j. find_entry j l) ((eq_iff x.id id).0 same),
      k.0,
    ),
  )
  | inr other ↦
      rw other (IsRemoved-next id x l (remove_entry id l) other k (remove_entry-IsRemoved id l k.1))
]

-- What `UpdateScheduleEnabled` does to the list.
abbrev pub IsUpdated :
    String → Bool → List ScheduleEntry → Option (ScheduleEntry × List ScheduleEntry) → Type 0
IsUpdated id b l none = find_entry id l ≡ none
IsUpdated id b l (some (u, r)) =
    ((e : ScheduleEntry) × (find_entry id l ≡ some e) × (u ≡ record e { enabled = b }))
    × AreDistinct r
    × ((i : String) → find_entry i r ≡ (if id == i then some u else find_entry i l))

IsUpdated-next :
    (id : String) (b : Bool) (x : ScheduleEntry) (l : List ScheduleEntry)
    (o : Option (ScheduleEntry × List ScheduleEntry))
    → (x.id == id) ≡ false
    → AreDistinct (x ∷ l)
    → IsUpdated id b l o
    → IsUpdated id b (x ∷ l) (elim o [ none ↦ none | some (u, r) ↦ some (u, x ∷ r) ])
unfolding find_entry
IsUpdated-next id b x l none other k h = rw other h
IsUpdated-next id b x l (some (u, r)) other k (h, d, f) = (
  (h.0, rw other h.1, h.2),
  (f x.id ∙ ground (arith, k.0, eq_iff id x.id, eq_iff x.id id), d),
  λ i. ground (arith, f i, eq_iff x.id i, eq_iff id i, eq_iff x.id id),
)

pub set_enabled-IsUpdated :
    (id : String) (b : Bool) (l : List ScheduleEntry)
    → AreDistinct l
    → IsUpdated id b l (set_enabled id b l)
unfolding set_enabled find_entry
set_enabled-IsUpdated id b [] k = refl
set_enabled-IsUpdated id b (x ∷ l) k = elim (Bool-cases (x.id == id)) [
  | inl same ↦
      rw same (
        (x, rw same refl, refl),
        k,
        λ i. ground (arith, eq_iff x.id id, eq_iff id i, eq_iff x.id i),
      )
  | inr other ↦
      rw other
        (IsUpdated-next id b x l (set_enabled id b l) other k (set_enabled-IsUpdated id b l k.1))
]
