-- ===== src/Paging/UserDirectory.antt =====
-- What a directory with the words that mm/paging.c gives a new process maps.
use coffee_os_aurora_refresh.Base.{
  ℕ, ◌-◌, ◌*◌, ◌≤◌, ◌<◌, ◌≡◌, ◌≢◌, inl, inr, refl, sym, true, none, Array, update, update_self,
  update_ne, Bool-cases, arith,
}
use coffee_os_aurora_refresh.Base.Bits.{test_bit}
use coffee_os_aurora_refresh.Pmm.Bitmap.{bitmap_test}
use coffee_os_aurora_refresh.Paging.Defs.{Paging, frame_of, pde_index, present}
use coffee_os_aurora_refresh.Paging.Directory.{user_directory}
use coffee_os_aurora_refresh.Paging.Translation.{translation}

-- Words of a new user directory.
user_directory_low :
    (kernel : Array ℕ) (pd_phys i : ℕ) → i < 768 → user_directory kernel pd_phys i ≡ 0
unfolding user_directory
user_directory_low kernel pd_phys i h = ground arith

supervisor_entry :
    (x : ℕ)
    → (present (x - test_bit x 2 * 4) ≡ present x)
      × (frame_of (x - test_bit x 2 * 4) ≡ frame_of x)
      × (test_bit (x - test_bit x 2 * 4) 2 ≡ 0)
unfolding test_bit
supervisor_entry x = (ground arith, omega arith, omega arith)

user_directory_kernel :
    (kernel : Array ℕ) (pd_phys i : ℕ)
    → 768 ≤ i
    → i < 1023
    → user_directory kernel pd_phys i ≡ kernel i - test_bit (kernel i) 2 * 4
unfolding user_directory
user_directory_kernel kernel pd_phys i h k = ground arith

-- A new directory maps what the kernel's maps at and above entry 768, for the supervisor only, and
-- nothing below.
module _ (s : Paging) (p : ℕ) where
  abbrev kernel : Array ℕ
  kernel = s.frames (frame_of s.kernel_pd_phys)

  unfoldable pub with_directory : Array (Array ℕ)
  with_directory = update s.frames p (user_directory kernel (p * 4096))

  pub user_low : (vaddr : ℕ) → vaddr < 0xc0000000 → translation with_directory p vaddr ≡ none
  unfolding translation test_bit with_directory
  user_low vaddr h =
      rw
        (
          update_self s.frames p (user_directory kernel (p * 4096)),
          user_directory_low kernel (p * 4096) (pde_index vaddr) (omega arith),
        )
        refl

  pub user_high :
      (vaddr : ℕ)
      → 0xc0000000 ≤ vaddr
      → vaddr < 0xffc00000
      → (present (s.frames (frame_of s.kernel_pd_phys) (pde_index vaddr)) ≡ true
          → frame_of (s.frames (frame_of s.kernel_pd_phys) (pde_index vaddr)) ≢ p)
      → translation with_directory p vaddr ≡ translation s.frames (frame_of s.kernel_pd_phys) vaddr
  unfolding translation with_directory
  user_high vaddr h k apart =
      rw
        (
          update_self s.frames p (user_directory kernel (p * 4096)),
          user_directory_kernel kernel (p * 4096) (pde_index vaddr) (omega arith) (omega arith),
          (supervisor_entry pde).0,
          (supervisor_entry pde).1,
        )
        (elim (Bool-cases (present pde)) [
          | inl e ↦
              rw
                (
                  e,
                  update_ne s.frames p (frame_of pde) (user_directory kernel (p * 4096))
                      (λ f. apart e (sym f)),
                )
                refl
          | inr e ↦ rw e refl
        ])
    where
      pde : ℕ
      pde = s.frames (frame_of s.kernel_pd_phys) (pde_index vaddr)

  pub user_bits : (i : ℕ) → 768 ≤ i → i < 1023 → test_bit (with_directory p i) 2 ≡ 0
  unfolding with_directory
  user_bits i h k =
      rw
        (
          update_self s.frames p (user_directory kernel (p * 4096)),
          user_directory_kernel kernel (p * 4096) i h k,
        )
        (supervisor_entry (s.frames (frame_of s.kernel_pd_phys) i)).2

-- What a process may reach under the directory in frame p.
pub record UserSpace (s t : Paging) (p : ℕ) : Type 0 where
  pub fresh : bitmap_test s.pmm.bitmap p ≡ 0
  pub low : (vaddr : ℕ) → vaddr < 0xc0000000 → translation t.frames p vaddr ≡ none
  pub high :
      (vaddr : ℕ)
      → 0xc0000000 ≤ vaddr
      → vaddr < 0xffc00000
      → translation t.frames p vaddr ≡ translation s.frames (frame_of s.kernel_pd_phys) vaddr
  pub supervisor : (i : ℕ) → 768 ≤ i → i < 1023 → test_bit (t.frames p i) 2 ≡ 0
  pub others : (q : ℕ) → q ≢ p → t.frames q ≡ s.frames q
