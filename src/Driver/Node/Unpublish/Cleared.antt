-- ===== src/Driver/Node/Unpublish/Cleared.antt =====
-- When `NodeUnpublishVolume` succeeds.
use brickstor_csi_driver.Base.{
  panic, ◌≢◌, ◌≡◌, ◌⊎◌, ◌↔◌, refl, inl, inr, true, false, Text, Error, ok, err, Outcome-cases,
  Bool-cases, ◌>>=◌, is_empty,
}
use brickstor_csi_driver.Driver.State.{Platform, State}
use brickstor_csi_driver.Driver.Node.Host.{Host}
use brickstor_csi_driver.Driver.Node.Unpublish.{
  remove_unmounted, unmount_target, clear_target, node_unpublish_volume, remove_ignoring,
}

module _ {W : Type 0} (p : Platform W) (h : Host W) (target : Text) where
  -- A removal that leaves no directory.
  abbrev IsRemoved : W → Type 0
  IsRemoved w =
      ((h.remove target w).0 ≡ ok tt)
      ⊎ ((e : Error) × ((h.remove target w).0 ≡ err e) × (h.is_not_exist e ≡ true))

  abbrev IsUnmounted : W → Type 0
  IsUnmounted w = ((h.unmount target w).0 ≡ ok tt) × IsRemoved (h.unmount target w).1

  -- The target is not there; or it is no mount point, and its removal comes back; or it is
  -- unmounted and removed.
  abbrev pub IsCleared : W → Type 0
  IsCleared w =
      let r = h.is_likely_not_mount_point target w in
      ((e : Error) × (r.0 ≡ err e) × (h.is_not_exist e ≡ true))
      ⊎ ((r.0 ≡ ok true) × ((h.remove target r.1).0 ≢ panic))
      ⊎ ((r.0 ≡ ok false) × IsUnmounted r.1)

  remove_unmounted-ok :
      (s : State W) → (remove_unmounted p h target s).0 ≡ ok tt ↔ IsRemoved s.world
  unfolding remove_unmounted
  remove_unmounted-ok s = (forth, back)
    where
      forth : (remove_unmounted p h target s).0 ≡ ok tt → IsRemoved s.world
      forth k = elim (Outcome-cases (h.remove target s.world).0) [
        | inl (u, e) ↦ inl e
        | inr (inl (x, e)) ↦ elim (Bool-cases (h.is_not_exist x)) [
          | inl gone ↦ inr (x, e, gone)
          | inr there ↦ let bad = rw (e, there, ◌>>=◌) at k in cc bad
        ]
        | inr (inr e) ↦ let bad = rw (e, ◌>>=◌) at k in cc bad
      ]

      back : IsRemoved s.world → (remove_unmounted p h target s).0 ≡ ok tt
      back (inl e) = rw (e, ◌>>=◌) refl
      back (inr (x, e, gone)) = rw (e, gone, ◌>>=◌) refl

  unmount_target-ok : (s : State W) → (unmount_target p h target s).0 ≡ ok tt ↔ IsUnmounted s.world
  unfolding unmount_target
  unmount_target-ok s = (forth, back)
    where
      forth : (unmount_target p h target s).0 ≡ ok tt → IsUnmounted s.world
      forth k = elim (Outcome-cases (h.unmount target s.world).0) [
        | inl (u, e) ↦ (e, (remove_unmounted-ok _).0 (rw (e, ◌>>=◌) at k))
        | inr (inl (x, e)) ↦ let bad = rw (e, ◌>>=◌) at k in cc bad
        | inr (inr e) ↦ let bad = rw (e, ◌>>=◌) at k in cc bad
      ]

      back : IsUnmounted s.world → (unmount_target p h target s).0 ≡ ok tt
      back (e, r) = rw (e, ◌>>=◌) ((remove_unmounted-ok _).1 r)

  remove_ignoring-ok :
      (s : State W)
      → (remove_ignoring p h target s).0 ≡ ok tt ↔ ((h.remove target s.world).0 ≢ panic)
  unfolding remove_ignoring
  remove_ignoring-ok s = (forth, back)
    where
      forth : (remove_ignoring p h target s).0 ≡ ok tt → (h.remove target s.world).0 ≢ panic
      forth k e = let bad = rw (e, ◌>>=◌) at k in cc bad

      back : (h.remove target s.world).0 ≢ panic → (remove_ignoring p h target s).0 ≡ ok tt
      back calm = elim (Outcome-cases (h.remove target s.world).0) [
        | inl (u, e) ↦ rw (e, ◌>>=◌) refl
        | inr (inl (x, e)) ↦ rw (e, ◌>>=◌) refl
        | inr (inr e) ↦ absurd (calm e)
      ]

  clear_target-ok : (s : State W) → (clear_target p h target s).0 ≡ ok tt ↔ IsCleared s.world
  unfolding clear_target
  clear_target-ok s = (forth, back)
    where
      forth : (clear_target p h target s).0 ≡ ok tt → IsCleared s.world
      forth k = elim (Outcome-cases (h.is_likely_not_mount_point target s.world).0) [
        | inl (true, e) ↦ inr (inl (e, (remove_ignoring-ok _).0 (rw (e, ◌>>=◌) at k)))
        | inl (false, e) ↦ inr (inr (e, (unmount_target-ok _).0 (rw (e, ◌>>=◌) at k)))
        | inr (inl (x, e)) ↦ elim (Bool-cases (h.is_not_exist x)) [
          | inl gone ↦ inl (x, e, gone)
          | inr there ↦ let bad = rw (e, there, ◌>>=◌) at k in cc bad
        ]
        | inr (inr e) ↦ let bad = rw (e, ◌>>=◌) at k in cc bad
      ]

      back : IsCleared s.world → (clear_target p h target s).0 ≡ ok tt
      back (inl (x, e, gone)) = rw (e, gone, ◌>>=◌) refl
      back (inr (inl (e, r))) = rw (e, ◌>>=◌) ((remove_ignoring-ok _).1 r)
      back (inr (inr (e, u))) = rw (e, ◌>>=◌) ((unmount_target-ok _).1 u)

  -- `NodeUnpublishVolume` succeeds exactly if both texts of the request are given and the target
  -- is not there, or is no mount point, or is unmounted and then removed or found missing; an error
  -- of the removal counts only behind an unmount.
  pub node_unpublish_volume-ok :
      (id : Text) (s : State W)
      → (node_unpublish_volume p h id target s).0 ≡ ok tt
        ↔ ((is_empty id ≡ false) × (is_empty target ≡ false) × IsCleared s.world)
  unfolding node_unpublish_volume
  node_unpublish_volume-ok id s = elim (Bool-cases (is_empty id)) [
    | inl e ↦ rw (e, node_unpublish_volume) (λ k. cc k, λ q. let bad = q.0 in cc bad)
    | inr e ↦ elim (Bool-cases (is_empty target)) [
      | inl f ↦ rw (e, f, node_unpublish_volume) (λ k. cc k, λ q. let bad = q.1 in cc bad)
      | inr f ↦
          rw (e, f, node_unpublish_volume)
            (λ k. (refl, refl, (clear_target-ok s).0 k), λ q. (clear_target-ok s).1 q.2)
    ]
  ]
