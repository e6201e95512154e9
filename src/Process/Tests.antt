-- ===== src/Process/Tests.antt =====
-- A run of src/kernel/process.c, and its theorems at it.
use coffee_os_aurora_refresh.Base.{ℕ, ◌+◌, ◌*◌, ◌<◌, ◌≡◌, ◌⊎◌, refl, some, none, [], ◌∷◌, arith}
use coffee_os_aurora_refresh.Pmm.Sample.{one_free}
use coffee_os_aurora_refresh.Process.{Processes, process_max, process_init, process_create}
use coffee_os_aurora_refresh.Process.Table.{
  create, switch_to, switch_to_kernel, mark_exited, run, Numbered, run-Numbered, Alive, Ended,
  Created, process_create-Outcome,
}

abbrev booted : Processes
booted =
    process_init
      (record {
        pmm = one_free;
        frames = λ q i. 0;
        current_pd_phys = 0x1000;
        kernel_pd_phys = 0x1000;
      })
      0x7000 0x9000

abbrev stacks : ℕ → ℕ
stacks i = 0x10000 + i * 0x2000

booted-Numbered : Numbered booted
unfolding process_init
booted-Numbered = record {
  next = omega arith;
  below = λ i. omega arith;
  apart = λ i j h k. absurd (k refl);
}

run-Numbered_example : Numbered (
    run stacks booted (
      create 0x2000 0x400000 0x800000
      ∷ switch_to (some 0)
      ∷ mark_exited (some 0) 3
      ∷ switch_to_kernel
      ∷ create 0x3000 0x400000 0x800000
      ∷ []))
unfolding process_init
run-Numbered_example =
    run-Numbered stacks booted
      (create 0x2000 0x400000 0x800000
        ∷ switch_to (some 0)
        ∷ mark_exited (some 0) 3
        ∷ switch_to_kernel
        ∷ create 0x3000 0x400000 0x800000
        ∷ [])
      (omega arith) booted-Numbered

process_create-Outcome_example :
    ((process_create stacks booted 0x2000 0x400000 0x800000 ≡ (none, booted))
      × ((j : ℕ) → j < process_max → Alive (booted.process_table j).state))
    ⊎ ((i : ℕ) × (i < process_max)
        × Ended (booted.process_table i).state
        × ((j : ℕ) → j < i → Alive (booted.process_table j).state)
        × ((process_create stacks booted 0x2000 0x400000 0x800000).0 ≡ some i)
        × Created stacks booted
            (process_create stacks booted 0x2000 0x400000 0x800000).1
            i
            0x2000
            0x400000
            0x800000)
process_create-Outcome_example =
    process_create-Outcome stacks booted 0x2000 0x400000 0x800000 (omega arith) (omega arith)
      (omega arith)
