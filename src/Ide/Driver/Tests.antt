-- ===== src/Ide/Driver/Tests.antt =====
-- Probes of a drive that is ready, and of one that is absent.
use orcas.Base.{◌≡◌, refl, some, [], ◌∷◌, ◌++◌}
use orcas.Ide.{minus_one, poll, test_ide_state}
use orcas.Ide.Driver.{probe, identify, await_identify, hard_driver_init}

-- The drive is ready at once; it is busy twice, then ready; there is no drive.
ready_drive :
    hard_driver_init (0x50 ∷ 0x50 ∷ 0x80 ∷ 0x80 ∷ 0x50 ∷ []) ≡ some (0, probe ++ identify, [])
unfolding hard_driver_init await_identify poll test_ide_state
ready_drive = refl

absent_drive : hard_driver_init (0x50 ∷ 0xff ∷ []) ≡ some (minus_one, probe, [])
unfolding hard_driver_init await_identify poll test_ide_state
absent_drive = refl
