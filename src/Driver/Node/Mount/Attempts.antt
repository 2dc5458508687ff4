-- ===== src/Driver/Node/Mount/Attempts.antt =====
-- How often `doMount` tries, and when it succeeds.
use brickstor_csi_driver.Base.{
  ℕ, zero, suc, ◌+◌, ◌≤◌, ◌≡◌, ◌≢◌, ◌∙◌, ◌⊎◌, refl, ap, inl, inr, arith, Bool, true, false, List,
  Text, codes, ok, err, Error, Outcome-cases, Bool-cases, contains, error_text, ◌>>=◌, >>=-ok-inv,
  >>=-ok, >>=-err, >>=-panic, Eff,
}
use brickstor_csi_driver.Driver.State.{Platform, State}
use brickstor_csi_driver.Driver.Node.Host.{Host}
use brickstor_csi_driver.Driver.Node.Mount.{
  mount_loop, mount_free, ready_target, make_target, do_mount, no_error,
}

module _ {W : Type 0} (p : Platform W) (h : Host W) (source target fs : Text)
    (options : List Text) where
  -- An error after which `doMount` tries again.
  abbrev pub IsTransient : Error → Type 0
  IsTransient e =
      (h.is_permission e ≡ false)
      × (contains (error_text p.grpc e) (codes "invalid argument") ≡ false)

  -- From one world to another by at most so many attempts, of which the last succeeds and the
  -- others fail with a transient error, with a pause after each of them.
  pub data MountedWithin : ℕ → W → W → Type 0 where
    at_once :
        {n : ℕ} {w : W}
        → (h.mount source target fs options w).0 ≡ ok tt
        → MountedWithin (suc n) w (h.mount source target fs options w).1
    after_pause :
        {n : ℕ} {w v : W} (e : Error)
        → (h.mount source target fs options w).0 ≡ err e
        → IsTransient e
        → MountedWithin n (p.sleep (h.mount source target fs options w).1) v
        → MountedWithin (suc n) w v

  abbrev loop : ℕ → Error → Eff (State W) (Unit {0})
  loop n last = mount_loop p h n last source target fs options

  abbrev tried : State W → State W
  tried s = record s { world = (h.mount source target fs options s.world).1 }

  abbrev paused : State W → State W
  paused s = record s { world = p.sleep (h.mount source target fs options s.world).1 }

  loop-mounted :
      (n : ℕ) (last : Error) (s : State W)
      → (h.mount source target fs options s.world).0 ≡ ok tt
      → mount_loop p h (suc n) last source target fs options s ≡ (ok tt, tried s)
  unfolding mount_loop
  loop-mounted n last s e = rw (e, ◌>>=◌) refl

  loop-transient :
      (n : ℕ) (last x : Error) (s : State W)
      → (h.mount source target fs options s.world).0 ≡ err x
      → IsTransient x
      → mount_loop p h (suc n) last source target fs options s
        ≡ mount_loop p h n x source target fs options (paused s)
  unfolding mount_loop
  loop-transient n last x s e (allowed, valid) = rw (e, allowed, valid, ◌>>=◌) refl

  -- What the first attempt may come to.
  loop-cases :
      (n : ℕ) (last : Error) (s : State W)
      → ((h.mount source target fs options s.world).0 ≡ ok tt)
        ⊎ ((x : Error) × ((h.mount source target fs options s.world).0 ≡ err x) × IsTransient x)
        ⊎ ((mount_loop p h (suc n) last source target fs options s).0 ≢ ok tt)
          × ((mount_loop p h (suc n) last source target fs options s).1 ≡ tried s)
  unfolding mount_loop
  loop-cases n last s = elim (Outcome-cases (h.mount source target fs options s.world).0) [
    | inl (u, e) ↦ inl e
    | inr (inl (x, e)) ↦ elim (Bool-cases (h.is_permission x)) [
      | inl denied ↦ inr (inr (rw (e, denied, ◌>>=◌) (λ bad. cc bad), rw (e, denied, ◌>>=◌) refl))
      | inr allowed ↦
          elim (Bool-cases (contains (error_text p.grpc x) (codes "invalid argument"))) [
            | inl invalid ↦ inr (
                inr (
                  rw (e, allowed, invalid, ◌>>=◌) (λ bad. cc bad),
                  rw (e, allowed, invalid, ◌>>=◌) refl,
                ))
            | inr valid ↦ inr (inl (x, e, (allowed, valid)))
          ]
    ]
    | inr (inr e) ↦ inr (inr (rw (e, ◌>>=◌) (λ bad. cc bad), rw (e, ◌>>=◌) refl))
  ]

  loop-exhausted :
      (last : Error) (s : State W) → (mount_loop p h zero last source target fs options s).0 ≢ ok tt
  unfolding mount_loop
  loop-exhausted last s = λ bad. cc bad

  loop-within :
      (n : ℕ) (last : Error) (s : State W)
      → (mount_loop p h n last source target fs options s).0 ≡ ok tt
      → MountedWithin n s.world (mount_loop p h n last source target fs options s).1.world
  loop-within zero last s k = absurd (loop-exhausted last s k)
  loop-within (suc n) last s k = elim (loop-cases n last s) [
    | inl e ↦ rw (loop-mounted n last s e) (at_once e)
    | inr (inl (x, e, t)) ↦
        let step = loop-transient n last x s e t in
        rw step (after_pause x e t (loop-within n x (paused s) (rw step at k)))
    | inr (inr (bad, same)) ↦ absurd (bad k)
  ]

  within-loop :
      (n : ℕ) (last : Error) (s : State W) (v : W)
      → MountedWithin n s.world v
      → mount_loop p h n last source target fs options s ≡ (ok tt, record s { world = v })
  within-loop zero last s v m = elim m [ ]
  within-loop (suc n) last s v (at_once e) = loop-mounted n last s e
  within-loop (suc n) last s v (after_pause x e t m) =
      loop-transient n last x s e t ∙ within-loop n x (paused s) v m

  -- Where the loop ends, if it succeeds.
  abbrev pub IsMounted : State W → State W → Type 0
  IsMounted s t =
      ((ready_target p h target s).0 ≡ ok true)
      × MountedWithin 10 (ready_target p h target s).1.world t.world

  mount_free-ok :
      (free : Bool) (s : State W)
      → (mount_free p h source target fs options free s).0 ≡ ok tt
      → (free ≡ true)
        × MountedWithin 10 s.world (mount_free p h source target fs options free s).1.world
  unfolding mount_free
  mount_free-ok true s k = (refl, loop-within 10 (no_error p h) s k)
  mount_free-ok false s k = cc k

  mount_free-within :
      (s : State W) (v : W)
      → MountedWithin 10 s.world v
      → mount_free p h source target fs options true s ≡ (ok tt, record s { world = v })
  unfolding mount_free
  mount_free-within s v m = within-loop 10 (no_error p h) s v m

  do_mount_ready :
      (s : State W) (free : Bool)
      → (ready_target p h target s).0 ≡ ok free
      → do_mount p h source target fs options s
        ≡ mount_free p h source target fs options free (ready_target p h target s).1
  unfolding do_mount
  do_mount_ready s free e =
      >>=-ok (ready_target p h target) (mount_free p h source target fs options) s e

  do_mount_inv :
      (s : State W)
      → (do_mount p h source target fs options s).0 ≡ ok tt
      → (free : Bool) × ((ready_target p h target s).0 ≡ ok free)
        × ((mount_free p h source target fs options free (ready_target p h target s).1).0 ≡ ok tt)
  unfolding do_mount
  do_mount_inv s k =
      >>=-ok-inv (ready_target p h target) (mount_free p h source target fs options) s tt k

  -- `doMount` succeeds exactly if the target is found free, or is made, and then one of at most ten
  -- attempts to mount succeeds, a second apart, after attempts that failed neither for a missing
  -- permission nor for an invalid argument; the world it ends in is that of this attempt.
  pub do_mount-ok :
      (s : State W)
      → ((do_mount p h source target fs options s).0 ≡ ok tt
          → IsMounted s (do_mount p h source target fs options s).1)
        × ((t : State W)
            → IsMounted s t
            → ((do_mount p h source target fs options s).0 ≡ ok tt)
              × ((do_mount p h source target fs options s).1.world ≡ t.world))
  do_mount-ok s = (forth, back)
    where
      forth :
          (do_mount p h source target fs options s).0 ≡ ok tt
          → IsMounted s (do_mount p h source target fs options s).1
      forth k =
          let (free, e, k1) = do_mount_inv s k in
          let (is_free, m) = mount_free-ok free (ready_target p h target s).1 k1 in
          rw (do_mount_ready s free e) (e ∙ ap ok is_free, m)

      back :
          (t : State W)
          → IsMounted s t
          → ((do_mount p h source target fs options s).0 ≡ ok tt)
            × ((do_mount p h source target fs options s).1.world ≡ t.world)
      back t (ready, m) =
          let all =
            do_mount_ready s true ready
            ∙ mount_free-within (ready_target p h target s).1 t.world m in
          (ap (λ r. r.0) all, ap (λ r. r.1.world) all)

  module _ (count : W → ℕ) where
    -- A counter of the calls of `mount`: no other call that `doMount` makes changes it.
    pub record IsCounter : Type 0 where
      pub mounts : (w : W) → count (h.mount source target fs options w).1 ≡ count w + 1
      pub sleeps : (w : W) → count (p.sleep w) ≡ count w
      pub looks : (w : W) → count (h.is_likely_not_mount_point target w).1 ≡ count w
      pub makes : (w : W) → count (h.mkdir_all target 0o750 w).1 ≡ count w

    loop-count :
        (c : IsCounter) (n : ℕ) (last : Error) (s : State W)
        → count (mount_loop p h n last source target fs options s).1.world ≤ count s.world + n
    loop-count c zero last s = unfold mount_loop in omega arith
    loop-count c (suc n) last s = elim (loop-cases n last s) [
      | inl e ↦ rw (loop-mounted n last s e, c.mounts s.world) (omega arith)
      | inr (inl (x, e, t)) ↦
          let step = loop-transient n last x s e t in
          let rest = loop-count c n x (paused s) in
          rw step (omega (arith, rest, c.mounts s.world, c.sleeps (tried s).world))
      | inr (inr (bad, same)) ↦ rw (same, c.mounts s.world) (omega arith)
    ]

    ready-count :
        (c : IsCounter) (s : State W) → count (ready_target p h target s).1.world ≡ count s.world
    unfolding ready_target make_target
    ready-count c s =
        ground (arith, c.looks s.world, c.makes (h.is_likely_not_mount_point target s.world).1)

    free-count :
        (c : IsCounter) (free : Bool) (s : State W)
        → count (mount_free p h source target fs options free s).1.world ≤ count s.world + 10
    unfolding mount_free
    free-count c true s = loop-count c 10 (no_error p h) s
    free-count c false s = omega arith

    -- `doMount` calls `mount` at most ten times, whatever the calls come to.
    pub do_mount-count :
        (c : IsCounter) (s : State W)
        → count (do_mount p h source target fs options s).1.world ≤ count s.world + 10
    unfolding do_mount
    do_mount-count c s =
        let same = ready-count c s in
        elim (Outcome-cases (ready_target p h target s).0) [
          | inl (free, e) ↦
              let rest = free-count c free (ready_target p h target s).1 in
              rw (do_mount_ready s free e) (omega (arith, same, rest))
          | inr (inl (x, e)) ↦
              rw (>>=-err (ready_target p h target) (mount_free p h source target fs options) s e)
                (omega (arith, same))
          | inr (inr e) ↦
              rw (>>=-panic (ready_target p h target) (mount_free p h source target fs options) s e)
                (omega (arith, same))
        ]
