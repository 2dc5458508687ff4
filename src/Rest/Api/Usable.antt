-- ===== src/Rest/Api/Usable.antt =====
-- Which datasets `GetDatasets` keeps.
use brickstor_csi_driver.Base.{
  ◌≡◌, ◌∙◌, ◌↔◌, refl, ap, inl, inr, true, false, not, [], ◌∷◌, ◌++◌, Text, codes, some, arith,
  drop, has_prefix, has_prefix-eq, cut_first, cut_first_sound, Lacks, Option-cases, &&-eq-true,
}
use brickstor_csi_driver.Rest.Api.{is_usable, is_global}

-- "pool/global...", in a pool whose name does not begin with "bp".
abbrev pub InGlobal : Text → Type 0
InGlobal path =
    (pool rest : Text) × (path ≡ pool ++ b'/' ∷ (codes "global" ++ rest))
    × Lacks b'/' pool
    × (has_prefix path (codes "bp") ≡ false)

cut_first-append :
    (pool rest : Text) → Lacks b'/' pool → cut_first b'/' (pool ++ b'/' ∷ rest) ≡ some (pool, rest)
unfolding cut_first
cut_first-append [] rest h = refl
cut_first-append (c ∷ pool) rest (other, h) = ground (arith, cut_first-append pool rest h)

global_prefix : (rest : Text) → has_prefix (codes "global" ++ rest) (codes "global") ≡ true
unfolding has_prefix
global_prefix rest = refl

-- A path is kept exactly if it is "global" or begins with it below a pool, and does not begin with
-- "bp".
pub is_usable-InGlobal : (path : Text) → is_usable path ≡ true ↔ InGlobal path
unfolding is_usable
is_usable-InGlobal path = (forth, back)
  where
    forth : is_usable path ≡ true → InGlobal path
    forth h =
        let (no_bp, global) =
          &&-eq-true (not (has_prefix path (codes "bp"))) (is_global (cut_first b'/' path)) h in
        elim (Option-cases (cut_first b'/' path)) [
          | inl e ↦ let bad = rw e at global in cc bad
          | inr ((pool, rest), e) ↦
              let (cut, lacks) = cut_first_sound b'/' path pool rest e in
              let prefix : has_prefix rest (codes "global") ≡ true = rw e at global in
              (
                pool,
                drop 6 rest,
                cut ∙ ap (λ r. pool ++ b'/' ∷ r) (has_prefix-eq rest (codes "global") prefix),
                lacks,
                ground arith,
              )
        ]

    back : InGlobal path → is_usable path ≡ true
    back (pool, rest, split_at, lacks, no_bp) =
        rw
          (
            no_bp,
            ap (cut_first b'/') split_at,
            cut_first-append pool (codes "global" ++ rest) lacks,
            global_prefix rest,
          )
          refl
