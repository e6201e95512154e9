-- ===== src/Process/Table.antt =====
-- Which slot process_create takes, and the process numbers that the table of src/kernel/process.c
-- hands out.
use coffee_os_aurora_refresh.Base.{
  ℕ, ◌+◌, ◌≤◌, ◌<◌, ◌≡◌, ◌≢◌, ◌⊎◌, inl, inr, refl, true, false, Option, none, some, List, [], ◌∷◌,
  length, if_intro, Option-cases, ==_ne, sym, ◌==◌, ◌||◌, update, update_self, update_ne, arith,
}
use coffee_os_aurora_refresh.Base.Search.{First, first-First}
use coffee_os_aurora_refresh.Process.{
  ProcessState, Process, Processes, process_max, reusable, find_slot, fill_slot, process_create,
  process_set_current, process_switch_to, process_switch_to_kernel, process_mark,
  process_mark_exited, process_mark_faulted,
}

-- The states of a slot that may be given to a new process, and the others.
abbrev pub Ended : ProcessState → Type 0
Ended state =
    (state ≡ ProcessState.unused) ⊎ (state ≡ ProcessState.exited) ⊎ (state ≡ ProcessState.faulted)

abbrev pub Alive : ProcessState → Type 0
Alive state = (state ≡ ProcessState.ready) ⊎ (state ≡ ProcessState.running)

reusable-Ended : (state : ProcessState) → reusable state ≡ true → Ended state
unfolding reusable
reusable-Ended ProcessState.unused h = inl refl
reusable-Ended ProcessState.ready h = absurd cc
reusable-Ended ProcessState.running h = absurd cc
reusable-Ended ProcessState.exited h = inr (inl refl)
reusable-Ended ProcessState.faulted h = inr (inr refl)

reusable-Alive : (state : ProcessState) → reusable state ≡ false → Alive state
unfolding reusable
reusable-Alive ProcessState.unused h = absurd cc
reusable-Alive ProcessState.ready h = inl refl
reusable-Alive ProcessState.running h = inr refl
reusable-Alive ProcessState.exited h = absurd cc
reusable-Alive ProcessState.faulted h = absurd cc

-- The table t has the new process in slot i, and is s but for it and the counter.
pub record Created (stack_top : ℕ → ℕ) (s t : Processes) (i pd entry stack : ℕ) : Type 0 where
  pub pid : (t.process_table i).pid ≡ s.next_pid
  pub directory : (t.process_table i).page_directory_phys ≡ pd
  pub starts_at : (t.process_table i).user_entry ≡ entry
  pub user_stack : (t.process_table i).user_stack_top ≡ stack
  pub kernel_stack : (t.process_table i).kernel_stack_top ≡ stack_top i
  pub code : (t.process_table i).exit_code ≡ 0
  pub is_ready : (t.process_table i).state ≡ ProcessState.ready
  pub no_context :
      (t.process_table i).resume_context
      ≡ record { kernel_esp = 0; kernel_ebp = 0; kernel_ebx = 0; kernel_esi = 0; kernel_edi = 0 }
  pub others : (j : ℕ) → j ≢ i → t.process_table j ≡ s.process_table j
  pub counter : s.next_pid + 1 < 4294967296 → t.next_pid ≡ s.next_pid + 1
  pub counter_wraps : s.next_pid + 1 ≡ 4294967296 → t.next_pid ≡ 1
  pub current : t.current_process ≡ s.current_process
  pub kernel_directory : t.kernel_page_directory_phys ≡ s.kernel_page_directory_phys
  pub boot_stack : t.boot_kernel_stack_top ≡ s.boot_kernel_stack_top
  pub esp0 : t.tss_esp0 ≡ s.tss_esp0
  pub same_paging : t.paging ≡ s.paging

fill_slot-Created :
    (stack_top : ℕ → ℕ) (s : Processes) (i pd entry stack : ℕ)
    → Created stack_top s (fill_slot stack_top s i pd entry stack) i pd entry stack
unfolding fill_slot
fill_slot-Created stack_top s i pd entry stack = record {
  pid = rw (filled) refl;
  directory = rw (filled) refl;
  starts_at = rw (filled) refl;
  user_stack = rw (filled) refl;
  kernel_stack = rw (filled) refl;
  code = rw (filled) refl;
  is_ready = rw (filled) refl;
  no_context = rw (filled) refl;
  others = λ j n. update_ne s.process_table i j _ (λ e. n (sym e));
  counter = λ h. ground arith;
  counter_wraps = λ h. ground arith;
  current = refl;
  kernel_directory = refl;
  boot_stack = refl;
  esp0 = refl;
  same_paging = refl;
}
  where
    filled : (x : Process) → update s.process_table i x i ≡ x
    filled x = update_self s.process_table i x

-- With nonzero arguments, process_create takes the first slot whose process is unused, has
-- exited or has faulted, returns it and fills it in (the next number, the directory, the entry
-- point and stacks, exit code 0, ready, a zero resume context), moves next_pid on, from
-- 0xFFFFFFFF to 1, and changes nothing else; when every slot is ready or running it returns
-- nothing and changes nothing.
pub process_create-Outcome :
    (stack_top : ℕ → ℕ) (s : Processes) (pd entry stack : ℕ)
    → pd ≢ 0
    → entry ≢ 0
    → stack ≢ 0
    → ((process_create stack_top s pd entry stack ≡ (none, s))
        × ((j : ℕ) → j < process_max → Alive (s.process_table j).state))
      ⊎ ((i : ℕ) × (i < process_max)
          × Ended (s.process_table i).state
          × ((j : ℕ) → j < i → Alive (s.process_table j).state)
          × ((process_create stack_top s pd entry stack).0 ≡ some i)
          × Created stack_top s (process_create stack_top s pd entry stack).1 i pd entry stack)
unfolding process_create find_slot
process_create-Outcome stack_top s pd entry stack hp he hs =
    rw (==_ne pd 0 hp, ==_ne entry 0 he, ==_ne stack 0 hs)
      (elim (Option-cases (find_slot s.process_table)) [
        | inl e ↦ rw e (inl (refl, λ j u. reusable-Alive _ ((rw e at found) j (omega arith) u)))
        | inr (i, e) ↦
            let p : First (λ j. reusable (s.process_table j).state) 0 process_max (some i) =
              rw e at found in
            rw e (
              inr (
                i,
                p.1,
                reusable-Ended _ p.2,
                (λ j u. reusable-Alive _ (p.3 j (omega arith) u)),
                refl,
                fill_slot-Created stack_top s i pd entry stack,
              ))
      ])
  where
    found :
        First (λ j. reusable (s.process_table j).state) 0 process_max (find_slot s.process_table)
    found = first-First (λ j. reusable (s.process_table j).state) process_max 0 process_max refl

-- The calls of the kernel on its process table.
pub data Call : Type 0 where
  create : ℕ → ℕ → ℕ → Call
  set_current : Option ℕ → Call
  switch_to : Option ℕ → Call
  switch_to_kernel : Call
  mark_exited : Option ℕ → ℕ → Call
  mark_faulted : Option ℕ → ℕ → Call

unfoldable pub step : (ℕ → ℕ) → Processes → Call → Processes
step stack_top s (create pd entry stack) = (process_create stack_top s pd entry stack).1
step stack_top s (set_current p) = process_set_current s p
step stack_top s (switch_to p) = process_switch_to s p
step stack_top s switch_to_kernel = process_switch_to_kernel s
step stack_top s (mark_exited p code) = process_mark_exited s p code
step stack_top s (mark_faulted p code) = process_mark_faulted s p code

unfoldable pub run : (ℕ → ℕ) → Processes → List Call → Processes
run stack_top s [] = s
run stack_top s (c ∷ cs) = run stack_top (step stack_top s c) cs

-- Processes have their own numbers, below the next one; 0 is no process.
pub record Numbered (s : Processes) : Type 0 where
  pub next : 1 ≤ s.next_pid
  pub below : (i : ℕ) → (s.process_table i).pid < s.next_pid
  pub apart :
      (i j : ℕ)
      → i ≢ j
      → (s.process_table i).pid ≢ 0
      → (s.process_table i).pid ≢ (s.process_table j).pid

-- A step that keeps the numbers keeps the property.
Numbered-same :
    (s t : Processes)
    → s.next_pid ≡ t.next_pid
    → ((i : ℕ) → (t.process_table i).pid ≡ (s.process_table i).pid)
    → Numbered s
    → Numbered t
Numbered-same s t e f v = record {
  next = rw (sym e) v.next;
  below = λ i. rw (sym e, f i) (v.below i);
  apart = λ i j. rw (f i, f j) (v.apart i j);
}

fill_slot-Numbered :
    (stack_top : ℕ → ℕ) (s : Processes) (i pd entry stack : ℕ)
    → s.next_pid + 1 < 4294967296
    → Numbered s
    → Numbered (fill_slot stack_top s i pd entry stack)
unfolding fill_slot
fill_slot-Numbered stack_top s i pd entry stack h v = record {
  next = ground arith;
  below = λ j. ground (arith, v.below j);
  apart = λ j k. ground (arith, v.next, v.below j, v.below k, v.apart j k);
}

process_create-Numbered :
    (stack_top : ℕ → ℕ) (s : Processes) (pd entry stack : ℕ)
    → s.next_pid + 1 < 4294967296
    → Numbered s
    → Numbered (process_create stack_top s pd entry stack).1
unfolding process_create
process_create-Numbered stack_top s pd entry stack h v =
    if_intro (λ (r : Option ℕ × Processes). Numbered r.1) (pd == 0 || entry == 0 || stack == 0) _ _
      (λ e. v)
      (λ e. elim (Option-cases (find_slot s.process_table)) [
        | inl f ↦ rw f v
        | inr (i, f) ↦ rw f (fill_slot-Numbered stack_top s i pd entry stack h v)
      ])

-- One call hands out at most one number.
create_next :
    (stack_top : ℕ → ℕ) (s : Processes) (pd entry stack : ℕ)
    → s.next_pid + 1 < 4294967296
    → (process_create stack_top s pd entry stack).1.next_pid ≤ s.next_pid + 1
unfolding process_create fill_slot
create_next stack_top s pd entry stack h =
    if_intro (λ (r : Option ℕ × Processes). r.1.next_pid ≤ s.next_pid + 1)
      (pd == 0 || entry == 0 || stack == 0) _ _ (λ e. omega arith)
      (λ e. elim (Option-cases (find_slot s.process_table)) [
        | inl f ↦ rw f (omega arith)
        | inr (i, f) ↦ rw f (ground arith)
      ])

mark-Numbered :
    (final : ProcessState) (s : Processes) (p : Option ℕ) (code : ℕ)
    → Numbered s
    → Numbered (process_mark final s p code)
unfolding process_mark
mark-Numbered final s none code v = v
mark-Numbered final s (some i) code v = Numbered-same s _ refl (λ j. ground arith) v

step-Numbered :
    (stack_top : ℕ → ℕ) (s : Processes) (c : Call)
    → s.next_pid + 1 < 4294967296
    → Numbered s
    → Numbered (step stack_top s c) × ((step stack_top s c).next_pid ≤ s.next_pid + 1)
unfolding step process_set_current process_switch_to process_switch_to_kernel process_mark
    process_mark_exited process_mark_faulted
step-Numbered stack_top s (create pd entry stack) h v = (
  process_create-Numbered stack_top s pd entry stack h v,
  create_next stack_top s pd entry stack h,
)
step-Numbered stack_top s (set_current p) h v = (Numbered-same s _ refl (λ j. refl) v, omega arith)
step-Numbered stack_top s (switch_to none) h v = (v, omega arith)
step-Numbered stack_top s (switch_to (some i)) h v =
    (Numbered-same s _ refl (λ j. ground arith) v, omega arith)
step-Numbered stack_top s switch_to_kernel h v = (Numbered-same s _ refl (λ j. refl) v, omega arith)
step-Numbered stack_top s (mark_exited none code) h v = (v, omega arith)
step-Numbered stack_top s (mark_exited (some i) code) h v =
    (mark-Numbered ProcessState.exited s (some i) code v, omega arith)
step-Numbered stack_top s (mark_faulted none code) h v = (v, omega arith)
step-Numbered stack_top s (mark_faulted (some i) code) h v =
    (mark-Numbered ProcessState.faulted s (some i) code v, omega arith)

-- Any sequence of calls too short to bring next_pid back to 0 leaves every process with a number
-- below next_pid that no other slot has, 0 aside.
pub run-Numbered :
    (stack_top : ℕ → ℕ) (s : Processes) (cs : List Call)
    → s.next_pid + length cs < 4294967296
    → Numbered s
    → Numbered (run stack_top s cs)
unfolding run
run-Numbered stack_top s [] h v = v
run-Numbered stack_top s (c ∷ cs) h v =
    run-Numbered stack_top (step stack_top s c) cs (omega (arith, after.1)) after.0
  where
    after : Numbered (step stack_top s c) × ((step stack_top s c).next_pid ≤ s.next_pid + 1)
    after = step-Numbered stack_top s c (omega arith) v
