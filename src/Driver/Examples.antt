-- ===== src/Driver/Examples.antt =====
-- The program on three processors.
use hwvar.Base.{[], ◌∷◌, ◌≡◌, refl, arith}
use hwvar.Mailbox.{abort}
use hwvar.Registry.{dgemm_ops, fwq_ops, sha256}
use hwvar.Runner.Each.{DoesAll}
use hwvar.Runner.Examples.{apart, crew, crew-Ready}
use hwvar.Driver.{Setup, parallel, one_by_one, pair, run_main}
use hwvar.Driver.Policies.{overlapping, Ended, run_main-Ended, run_main-pair}

abbrev setup : Setup
setup = record { now = 0; iterations = 13; columns = 1; cpus = 3; sets = apart; pair_cpus = 2 }

run_main-Ended_example :
    DoesAll (run_main setup parallel (dgemm_ops ∷ fwq_ops ∷ sha256 ∷ []) crew) (Ended setup 2 refl)
    × DoesAll
        (run_main setup one_by_one (dgemm_ops ∷ fwq_ops ∷ sha256 ∷ []) crew)
        (Ended setup 2 refl)
run_main-Ended_example =
    run_main-Ended setup 2 refl (dgemm_ops ∷ fwq_ops ∷ sha256 ∷ []) crew (ground arith) crew-Ready

run_main-pair_example :
    DoesAll (run_main setup pair (dgemm_ops ∷ fwq_ops ∷ []) crew) (Ended setup 2 refl)
    × (run_main setup pair (dgemm_ops ∷ fwq_ops ∷ sha256 ∷ []) crew ≡ abort)
    × (run_main (overlapping setup) pair (dgemm_ops ∷ []) crew ≡ abort)
run_main-pair_example =
    run_main-pair setup 2 refl 1 1 refl refl refl refl dgemm_ops fwq_ops sha256 [] crew
      (ground arith) crew-Ready
