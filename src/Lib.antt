-- ===== src/Lib.antt =====
-- coffeeOS Aurora Refresh: a 32-bit x86 kernel in freestanding C. This library models the parts of
-- the kernel that keep state and decide, and proves what makes them correct.
--
-- Pmm models mem/pmm.c, the physical memory manager. Pmm.State is its static state (`Pmm`) and the
-- region helpers, Pmm.Bitmap the bitmap, Pmm.Alloc pmm_alloc_page and pmm_alloc_page_below,
-- Pmm.Refs freeing, reserving and reference counts, Pmm.Init pmm_init and pmm_memmap_next. The
-- proofs are in Pmm.Scan, Pmm.Lowest, Pmm.Steps, Pmm.Sharing, Pmm.Reserved, Pmm.Regions, Pmm.Boot,
-- Pmm.Ready, Pmm.Reserve and Pmm.Booted.
--
-- Paging models mm/paging.c, which takes its frames from Pmm. Paging.Defs has the walk to a page
-- table (walk_get_pte), map_page, unmap_page and paging_get_mapping, Paging.Directory the
-- operations on other directories and paging_create_user_directory_phys, Paging.Flags
-- paging_update_page_flags, paging_temp_map and the check vmm_user_range_accessible of mem/vmm.c.
-- Physical memory is a function from frames to words; Paging.Translation walks it as the processor
-- does. The proofs are in Paging.Mapping, Paging.Roundtrip, Paging.Isolation,
-- Paging.UserDirectory and Paging.UserSpace.
-- The code reaches tables through a recursive entry, which is taken to show the current directory
-- and its tables. paging_create_user_directory_phys instead uses physical addresses as they are:
-- its model goes through what the current directory maps there, and gives none for a page fault.
--
-- Vm models mm/vm.c over Paging and Pmm: the lazy kernel heap and the page fault handlers;
-- Vm.Runs, Vm.Unmapping and Vm.Freed have the proofs. Process models src/kernel/process.c, the process table, which switches Paging's
-- directory; Process.Table has the proofs.
--
-- Net models parts of net/: Net.Arp the cache of net/arp.c, Net.Checksum ip_checksum of net/ip.c,
-- Net.Udp the sockets of net/udp.c, Net.Tcp those of net/tcp.c. The proofs are in Net.Arp.Cache,
-- Net.Checksum, Net.Udp.Dispatch, Net.Tcp.Ring and Net.Tcp.Receive. Packets are given by their
-- fields in host byte order; whether the card takes a segment is a parameter.
--
-- Disk models the block devices. Disk itself is the interface that the file system uses, one block
-- at a time, with its laws; Disk.Registry the registry of fs/blkdev.c, Disk.Blocks the partitions
-- of fs/mbr.c and the ramdisk of drivers/ramdisk.c, both over runs of blocks. The proofs are in
-- Disk.Registry.Found, Disk.Blocks.Partitions, Disk.Blocks.Registered and Disk.Blocks.Entries.
--
-- Fat models fs/fat32.c over the interface of Disk. Fat.Cache is the sector cache; Fat.Cache.View
-- says which blocks it shows, and Fat.Cache.Ops and Fat.Cache.Flush relate its calls to that view.
-- Fat.Table is the file allocation table: entries, FSInfo, allocation, freeing and the walks over
-- cluster chains, with proofs in Fat.Table.Copies, Fat.Table.FsInfo, Fat.Table.Barrier,
-- Fat.Table.Alloc, Fat.Table.Freeing and Fat.Table.Walks; Fat.Table.Search and Fat.Table.Chains describe the search
-- for a free cluster and chains on a plain table. Fat.Data is whole clusters and the bytes of
-- chains (fat32_read_chain, fat32_write_chain); Fat.Data.Clusters has proofs about clusters and
-- Fat.Data.Reading about fat32_read_chain. Fat.Names converts names; its proof is in
-- Fat.Names.Chunks. Fat.Mount is fat32_mount, with proofs in Fat.Mount.Geometry, Fat.Directory the
-- lookup, listing and deletion of directory entries, and Fat.Fsck fat32_fsck and fat32_unmount.
-- One volume is modelled, the one that a call is about. A call is a function from the state to an
-- optional result and the new state; a sector buffer is returned instead of filled.
--
-- Base has what these share: tests that compute, arrays, bits of words, little-endian words,
-- lists, in Base.Fallible the calls that may fail, and in Base.Search the loop that returns the
-- first index with a property; Base.Integers has the conversion of a word to int. The modules named Tests run the definitions on small inputs.
--
-- C arrays are functions from indices, `update` is an assignment, and unsigned arithmetic has its
-- wrap-around written out (u16, u32, sub32). The loop of pmm_init over the Multiboot map takes
-- fuel; a quarter of the map's length and two more rounds are enough, since each entry takes the
-- cursor at least four bytes on. Folding a 32-bit sum in ip_checksum takes at most two rounds, and
-- its fuel is two. The loop of vmm_user_range_accessible has one round for each page of its range.
-- What the boot loader left in memory is a parameter. The walks over cluster chains of fs/fat32.c
-- stop at their own safety counter, total_clusters, which is their fuel; a chain of the volume is
-- never longer. The loop of fat32_write_chain writes a byte in each round, so its fuel is the
-- length.
--
-- Output to the serial port and the screen, port and interrupt access, TLB invalidation, the
-- desktop, the applications, the drivers other than the ramdisk and the user programs are not
-- modelled, nor are paging_init, the creation of directory entries and the formatter of FAT32, the
-- VFS, the waiting loops of the network stack, and its DNS, DHCP and HTTP clients. Callers of
-- fs/fat32.c never pass null pointers, and those tests are left out.
pub mod Base
pub mod Disk
pub mod Fat
pub mod Net
pub mod Paging
pub mod Pmm
pub mod Process
pub mod Vm
