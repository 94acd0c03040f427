-- ===== src/UserPaging/Tests.antt =====
-- The theorems on a task with one area and an empty directory.
use zelda_os.Prelude.{
  ℕ, ◌<◌, ◌≡◌, refl, sym, ◌∙◌, true, false, Option, some, [], ◌∷◌, arith, ◌==◌, if◌then◌else◌,
  Outcome, done, Ends, Yields,
}
use zelda_os.Status.{Status}
use zelda_os.UserVma.{Areas, search_userspace_vma_by_addr}
use zelda_os.Paging.{
  bit, set_bit, is_page_free, mark_page_as_occupied, fast_scan, get_page_fast, get_page,
}
use zelda_os.Paging.Base.{
  base_stop, base_rounds, base_search_start, get_base_page_fast, get_base_page,
}
use zelda_os.Paging.Tables.{Machine, present, store, clear_page, enter, virt2phy}
use zelda_os.Paging.Tables.Sound.{IsSound, pde}
use zelda_os.UserPaging.{Store, vma_in_task, userspace_map_page, userspace_evict_page}
use zelda_os.UserPaging.Area.{
  frame_for, map_frame, handle_userspace_page_fault, userspace_evict_vma,
}
use zelda_os.UserPaging.Enter.{MapResult, userspace_map_page-MapResult}
use zelda_os.UserPaging.Frame.{FaultResult}
use zelda_os.UserPaging.Evict.{EvictResult, userspace_evict_page-EvictResult}
use zelda_os.UserPaging.Fault.{handle_userspace_page_fault-FaultResult}
use zelda_os.UserPaging.Whole.{EvictedVma, userspace_evict_vma-EvictedVma}

-- the directory is the first page of the inventory
abbrev empty_directory : Machine
empty_directory = record {
  memory = λ a. 0;
  base = record {
    free_base_page_bitmap = λ i. if i == 0 then 1 else 0;
    fast_base_page_addr = 67108864;
  };
}

empty_directory-IsSound : IsSound 67108864 empty_directory
unfolding is_page_free bit
empty_directory-IsSound = record {
  rounds = refl;
  directory = ((omega arith, omega arith, refl), refl);
  tables = λ i h p. absurd (omega (arith, p));
  apart = λ i h p. absurd (omega (arith, p));
  distinct = λ i j hi hj ne p q. absurd (omega (arith, p));
}

abbrev start_store : Store
start_store = record {
  machine = empty_directory;
  pages = record { free_page_bitmap = λ i. 0; fast_page_addr = 0 };
}

-- two pages at 1 GB
abbrev areas : Areas
areas p = record {
  name = [];
  kernel_vma = false;
  exact = false;
  write_permission = 1;
  page_writethrough = 0;
  page_cachedisable = 0;
  virt_addr = 1073741824;
  phy_addr = 0;
  length = 8192;
}

userspace_map_page-MapResult_example :
    Yields
      (userspace_map_page 67108864 1073741828 2097152 1 0 0 empty_directory)
      (MapResult 67108864 1073741828 2097152 empty_directory)
userspace_map_page-MapResult_example =
    userspace_map_page-MapResult 67108864 empty_directory 1073741828 2097152 1 0 0
      empty_directory-IsSound (omega arith) (omega arith)

userspace_evict_page-EvictResult_example :
    Ends
      (userspace_evict_page 67108864 areas (8 ∷ []) 1073741828 true start_store)
      (EvictResult 67108864 1073741828 false start_store)
unfolding search_userspace_vma_by_addr
userspace_evict_page-EvictResult_example =
    userspace_evict_page-EvictResult 67108864 areas (8 ∷ []) 1073741828 true start_store
      empty_directory-IsSound (omega arith)

handle_userspace_page_fault-FaultResult_example :
    Yields
      (handle_userspace_page_fault 1048576 1064960 67108864 true areas
        (8 ∷ [])
        1073741828
        start_store)
      (FaultResult 67108864 (areas 8) 1073741828 start_store)
unfolding search_userspace_vma_by_addr
handle_userspace_page_fault-FaultResult_example =
    handle_userspace_page_fault-FaultResult 1048576 1064960 refl (omega arith) (omega arith)
      67108864 areas (8 ∷ []) 1073741828 start_store empty_directory-IsSound refl (omega arith)

found : Option (Outcome (Status × Store)) → ℕ
found (some (done (rc, s))) = virt2phy s.machine.memory 67108864 1073741828
found r = 1

faulted_lem :
    found (
      handle_userspace_page_fault 1048576 1064960 67108864 true areas
        (8 ∷ [])
        1073741828
        start_store)
    ≡ 1048580
unfolding found handle_userspace_page_fault frame_for map_frame userspace_map_page get_page
    get_page_fast fast_scan enter virt2phy get_base_page get_base_page_fast base_search_start
    base_rounds base_stop store clear_page is_page_free mark_page_as_occupied bit set_bit
    search_userspace_vma_by_addr
faulted_lem = refl

-- the directory and one table, with the first page of the area
abbrev one_page : Store
one_page = record {
  machine = record {
    memory = λ a. if a == 67109888 then 67112967 else if a == 67112960 then 2097159 else 0;
    base = record {
      free_base_page_bitmap = λ i. if i == 0 then 3 else 0;
      fast_base_page_addr = 67108864;
    };
  };
  pages = record { free_page_bitmap = λ i. if i == 64 then 1 else 0; fast_page_addr = 0 };
}

one_table : (i : ℕ) → i < 1024 → present (pde one_page.machine 67108864 i) ≡ 1 → i ≡ 256
one_table i h p = ground arith

one_page-IsSound : IsSound 67108864 one_page.machine
unfolding is_page_free bit
one_page-IsSound = record {
  rounds = refl;
  directory = ((omega arith, omega arith, refl), refl);
  tables = λ i h p. let e = one_table i h p in rw e ((omega arith, omega arith, refl), refl);
  apart = λ i h p. let e = one_table i h p in rw e (omega arith);
  distinct = λ i j hi hj ne p q. absurd (ne (one_table i hi p ∙ sym (one_table j hj q)));
}

userspace_evict_vma-EvictedVma_example :
    Yields
      (userspace_evict_vma 67108864 areas (8 ∷ []) 8 one_page)
      (EvictedVma false false 67108864 areas (8 ∷ []) (areas 8) one_page)
unfolding vma_in_task
userspace_evict_vma-EvictedVma_example =
    userspace_evict_vma-EvictedVma 67108864 areas (8 ∷ []) 8 one_page one_page-IsSound refl
      (omega arith) (omega arith)
