-- ===== src/Base/Laws.antt =====
-- Laws of the text functions: equality, and splitting at a separator.
use Prim.Native.Nat.{ℕ}
use mathlib.Core.Path.{◌≡◌, refl, ap, subst}
use mathlib.Core.Logic.{◌≢◌, ◌↔◌, inl, inr}
use mathlib.Core.Bool.{true}
use mathlib.Core.List.{List, [], ◌∷◌, ◌++◌}
use mathlib.Core.Option.{Option, none, some}
use native.Mathlib.Omega.{arith}
use brickstor_csi_driver.Base.Tests.{◌==◌, Bool-cases}
use brickstor_csi_driver.Base.Strings.{
  is_empty, has_prefix, push_before, cut_first, drop, length, Text, text_eq, split, join, push_part,
  Lacks,
}

pub text_eq_refl : (s : Text) → text_eq s s ≡ true
unfolding text_eq
text_eq_refl [] = refl
text_eq_refl (c ∷ s) = ground (arith, text_eq_refl s)

pub text_eq→eq : (s t : Text) → text_eq s t ≡ true → s ≡ t
unfolding text_eq
text_eq→eq [] [] h = refl
text_eq→eq [] (y ∷ ys) h = ground arith
text_eq→eq (x ∷ xs) [] h = ground arith
text_eq→eq (x ∷ xs) (y ∷ ys) h = ground (arith, text_eq→eq xs ys)

pub text_eq_iff : (s t : Text) → (text_eq s t ≡ true) ↔ (s ≡ t)
text_eq_iff s t = (text_eq→eq s t, λ e. ground (arith, text_eq_refl s))

-- A text without the separator is its own only part.
pub split-Lacks : (sep : ℕ) (s : Text) → Lacks sep s → split sep s ≡ s ∷ []
unfolding split
split-Lacks sep [] h = refl
split-Lacks sep (c ∷ s) (hc, hs) = ground (arith, split-Lacks sep s hs)

pub split-append : (sep : ℕ) (p s : Text) → Lacks sep p → split sep (p ++ sep ∷ s) ≡ p ∷ split sep s
unfolding split
split-append sep [] s h = ground arith
split-append sep (c ∷ p) s (hc, hp) = ground (arith, split-append sep p s hp)

pub split-ne-nil : (sep : ℕ) (s : Text) → split sep s ≢ []
unfolding split
split-ne-nil sep [] h = cc
split-ne-nil sep (c ∷ s) h = ground (arith, split-ne-nil sep s)

pub join-push_part :
    (sep : Text) (c : ℕ) (ps : List Text) → ps ≢ [] → join sep (push_part c ps) ≡ c ∷ join sep ps
unfolding join
join-push_part sep c [] h = absurd (h refl)
join-push_part sep c (p ∷ []) h = refl
join-push_part sep c (p ∷ q ∷ ps) h = refl

join_nil_head :
    (sep : ℕ) (ps : List Text) → ps ≢ [] → join (sep ∷ []) ([] ∷ ps) ≡ sep ∷ join (sep ∷ []) ps
unfolding join
join_nil_head sep [] h = absurd (h refl)
join_nil_head sep (p ∷ ps) h = refl

-- Joining the parts of a split gives the text back.
pub join-split : (sep : ℕ) (s : Text) → join (sep ∷ []) (split sep s) ≡ s
unfolding split
join-split sep [] = unfold join in refl
join-split sep (c ∷ s) = ground (
  arith,
  join-split sep s,
  join-push_part (sep ∷ []) c (split sep s) (split-ne-nil sep s),
  join_nil_head sep (split sep s) (split-ne-nil sep s),
)

-- No part holds the separator.
abbrev pub AllLack : ℕ → List Text → Type 0
AllLack sep [] = Unit
AllLack sep (p ∷ ps) = Lacks sep p × AllLack sep ps

push_part-AllLack :
    (sep c : ℕ) (ps : List Text) → c ≢ sep → AllLack sep ps → AllLack sep (push_part c ps)
push_part-AllLack sep c [] h hs = ((h, tt), tt)
push_part-AllLack sep c (p ∷ ps) h (hp, hs) = ((h, hp), hs)

pub split-AllLack : (sep : ℕ) (s : Text) → AllLack sep (split sep s)
unfolding split
split-AllLack sep [] = (tt, tt)
split-AllLack sep (c ∷ s) = elim (Bool-cases (c == sep)) [
  | inl e ↦ rw e (tt, split-AllLack sep s)
  | inr e ↦ rw e (push_part-AllLack sep c _ (ground arith) (split-AllLack sep s))
]

pub is_empty→eq {ℓ} : {A : Type ℓ} (s : List A) → is_empty s ≡ true → s ≡ []
is_empty→eq [] h = refl
is_empty→eq (c ∷ s) h = cc

-- A text with a prefix is the prefix and the rest.
pub has_prefix-eq : (s p : Text) → has_prefix s p ≡ true → s ≡ p ++ drop (length p) s
unfolding has_prefix
has_prefix-eq s [] h = refl
has_prefix-eq [] (c ∷ p) h = ground arith
has_prefix-eq (x ∷ s) (c ∷ p) h = ground (arith, has_prefix-eq s p)

abbrev CutAt : ℕ → Text → Option (Text × Text) → Type 0
CutAt sep s none = Unit
CutAt sep s (some (before, after)) = (s ≡ before ++ sep ∷ after) × Lacks sep before

push_before-CutAt :
    (sep c : ℕ) (s : Text) (o : Option (Text × Text))
    → c ≢ sep
    → CutAt sep s o
    → CutAt sep (c ∷ s) (push_before c o)
push_before-CutAt sep c s none h k = tt
push_before-CutAt sep c s (some (before, after)) h (e, l) = (ap (λ t. c ∷ t) e, (h, l))

cut_first-CutAt : (sep : ℕ) (s : Text) → CutAt sep s (cut_first sep s)
unfolding cut_first
cut_first-CutAt sep [] = tt
cut_first-CutAt sep (c ∷ s) = elim (Bool-cases (c == sep)) [
  | inl e ↦ rw e (let same : c ≡ sep = ground arith in rw same refl, tt)
  | inr e ↦ rw e (push_before-CutAt sep c s _ (ground arith) (cut_first-CutAt sep s))
]

-- A text is cut at its first separator.
pub cut_first_sound :
    (sep : ℕ) (s before after : Text)
    → cut_first sep s ≡ some (before, after)
    → (s ≡ before ++ sep ∷ after) × Lacks sep before
cut_first_sound sep s before after h = subst (CutAt sep s) h (cut_first-CutAt sep s)
