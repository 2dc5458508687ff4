-- ===== src/Driver/State/Kept.antt =====
-- A predicate on the state of a process that does not speak of the world.
use brickstor_csi_driver.Base.{Eff, Keeps}
use brickstor_csi_driver.Driver.State.{State, lift}

-- Whatever happens below, the predicate stays.
abbrev pub IsInner : {W : Type 0} → (State W → Type 0) → Type 0
IsInner {W} I = (s : State W) (w : W) → I s → I (record s { world = w })

pub lift-Keeps :
    {W A : Type 0} (I : State W → Type 0) → IsInner I → (m : Eff W A) → Keeps I (lift m)
lift-Keeps I inner m s i = inner s (m s.world).1 i
