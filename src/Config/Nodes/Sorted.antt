-- ===== src/Config/Nodes/Sorted.antt =====
-- The names that `NodeNames` sorts are those of the map.
use brickstor_csi_driver.Base.{
  ◌≡◌, refl, inl, inr, true, false, ◌||◌, Bool, Bool-cases, List, [], ◌∷◌, Text, some, text_eq,
}
use brickstor_csi_driver.Config.Nodes.{
  BsrData, NodeMap, lookup, sorted_names, insert_sorted, text_leb,
}
use brickstor_csi_driver.Config.Validate.{contains_string}

or_swap : (a b c : Bool) → (a || (b || c)) ≡ (b || (a || c))
or_swap true true c = refl
or_swap true false c = refl
or_swap false b c = refl

insert_sorted-contains :
    (a : Text) (names : List Text) (b : Text)
    → contains_string (insert_sorted a names) b ≡ (text_eq a b || contains_string names b)
unfolding insert_sorted contains_string
insert_sorted-contains a [] b = refl
insert_sorted-contains a (n ∷ ns) b = elim (Bool-cases (text_leb a n)) [
  | inl e ↦ rw e refl
  | inr e ↦
      rw (e, insert_sorted-contains a ns b)
        (or_swap (text_eq n b) (text_eq a b) (contains_string ns b))
]

-- Each name of a map is among the sorted names.
pub sorted_names-contains :
    (m : NodeMap) (name : Text) (d : BsrData)
    → lookup name m ≡ some d
    → contains_string (sorted_names m) name ≡ true
unfolding sorted_names lookup
sorted_names-contains [] name d h = cc h
sorted_names-contains ((k, v) ∷ m) name d h = elim (Bool-cases (text_eq k name)) [
  | inl e ↦ rw (insert_sorted-contains k (sorted_names m) name, e) refl
  | inr e ↦
      rw (insert_sorted-contains k (sorted_names m) name, e)
        (sorted_names-contains m name d (rw e at h))
]
