-- ===== src/Process.antt =====
-- The process table of src/kernel/process.c. A pointer to a process is its slot in process_table;
-- the address of a slot's kernel stack, and the boot stack pointer, are given. The loop of
-- process_create stops at the first reusable slot. Messages to the serial port are left out.
use coffee_os_aurora_refresh.Base.{
  ℕ, zero, suc, ◌+◌, Bool, true, false, ◌||◌, Option, none, some, Array, update, ◌==◌,
  if◌then◌else◌, u32,
}
use coffee_os_aurora_refresh.Base.Search.{first}
use coffee_os_aurora_refresh.Paging.Defs.{Paging}
use coffee_os_aurora_refresh.Paging.Directory.{paging_switch_directory}
pub mod Table
mod Tests

pub data ProcessState : Type 0 where
  unused : ProcessState
  ready : ProcessState
  running : ProcessState
  exited : ProcessState
  faulted : ProcessState

-- struct UserlandResumeContext
pub record ResumeContext : Type 0 where
  pub kernel_esp : ℕ
  pub kernel_ebp : ℕ
  pub kernel_ebx : ℕ
  pub kernel_esi : ℕ
  pub kernel_edi : ℕ

-- struct Process, without the bytes of its kernel stack.
pub record Process : Type 0 where
  pub pid : ℕ
  pub page_directory_phys : ℕ
  pub user_entry : ℕ
  pub user_stack_top : ℕ
  pub kernel_stack_top : ℕ
  pub exit_code : ℕ
  pub state : ProcessState
  pub resume_context : ResumeContext

-- The static variables, with the TSS's kernel stack and the paging state that they act on.
pub record Processes : Type 0 where
  pub process_table : Array Process
  pub current_process : Option ℕ
  pub next_pid : ℕ
  pub kernel_page_directory_phys : ℕ
  pub boot_kernel_stack_top : ℕ
  pub tss_esp0 : ℕ
  pub paging : Paging

abbrev pub process_max : ℕ
process_max = 8

-- A slot after memzero.
abbrev pub zeroed : Process
zeroed = record {
  pid = 0;
  page_directory_phys = 0;
  user_entry = 0;
  user_stack_top = 0;
  kernel_stack_top = 0;
  exit_code = 0;
  state = ProcessState.unused;
  resume_context = record {
    kernel_esp = 0;
    kernel_ebp = 0;
    kernel_ebx = 0;
    kernel_esi = 0;
    kernel_edi = 0;
  };
}

-- process_init, on a given stack pointer.
unfoldable pub process_init : Paging → ℕ → ℕ → Processes
process_init paging esp0 esp = record {
  process_table = λ i. zeroed;
  current_process = none;
  next_pid = 1;
  kernel_page_directory_phys = paging.kernel_pd_phys;
  boot_kernel_stack_top = esp;
  tss_esp0 = esp0;
  paging = paging;
}

unfoldable pub reusable : ProcessState → Bool
reusable ProcessState.unused = true
reusable ProcessState.ready = false
reusable ProcessState.running = false
reusable ProcessState.exited = true
reusable ProcessState.faulted = true

-- The loop of process_create.
unfoldable pub find_slot : Array Process → Option ℕ
find_slot table = first (λ i. reusable (table i).state) process_max 0

-- The slot filled in, and the counter moved on past 0.
unfoldable pub fill_slot : (ℕ → ℕ) → Processes → ℕ → ℕ → ℕ → ℕ → Processes
fill_slot stack_top s i pd entry stack = record s {
  process_table = update s.process_table i (record zeroed {
    pid = s.next_pid;
    page_directory_phys = pd;
    user_entry = entry;
    user_stack_top = stack;
    kernel_stack_top = stack_top i;
    state = ProcessState.ready;
  });
  next_pid = if u32 (s.next_pid + 1) == 0 then 1 else u32 (s.next_pid + 1);
}

unfoldable pub process_create : (ℕ → ℕ) → Processes → ℕ → ℕ → ℕ → Option ℕ × Processes
process_create stack_top s pd entry stack =
    let created : Option ℕ × Processes = elim (find_slot s.process_table) [
      | none ↦ (none, s)
      | some i ↦ (some i, fill_slot stack_top s i pd entry stack)
    ] in
    if pd == 0 || entry == 0 || stack == 0 then (none, s) else created

unfoldable pub process_set_current : Processes → Option ℕ → Processes
process_set_current s process = record s { current_process = process }

unfoldable pub process_switch_to : Processes → Option ℕ → Processes
process_switch_to s none = s
process_switch_to s (some i) =
    let p = s.process_table i in
    record s {
      current_process = some i;
      process_table = update s.process_table i (record p { state = ProcessState.running });
      tss_esp0 = p.kernel_stack_top;
      paging = paging_switch_directory s.paging p.page_directory_phys;
    }

unfoldable pub process_switch_to_kernel : Processes → Processes
process_switch_to_kernel s = record s {
  current_process = none;
  tss_esp0 = s.boot_kernel_stack_top;
  paging =
      if s.kernel_page_directory_phys == 0
      then s.paging
      else paging_switch_directory s.paging s.kernel_page_directory_phys;
}

-- process_mark_exited and process_mark_faulted: the state that the process ends in, and its code.
unfoldable pub process_mark : ProcessState → Processes → Option ℕ → ℕ → Processes
process_mark final s none code = s
process_mark final s (some i) code =
    let p = s.process_table i in
    record s {
      process_table = update s.process_table i (record p { exit_code = code; state = final });
    }

unfoldable pub process_mark_exited : Processes → Option ℕ → ℕ → Processes
process_mark_exited s process code = process_mark ProcessState.exited s process code

unfoldable pub process_mark_faulted : Processes → Option ℕ → ℕ → Processes
process_mark_faulted s process code = process_mark ProcessState.faulted s process code

unfoldable pub process_current_pid : Processes → ℕ
process_current_pid s = elim s.current_process [ none ↦ 0 | some i ↦ (s.process_table i).pid ]
