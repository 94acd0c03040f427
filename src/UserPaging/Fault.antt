-- ===== src/UserPaging/Fault.antt =====
-- `handle_userspace_page_fault` maps the page of an area that a task has touched.
use zelda_os.Prelude.{
  ℕ, ◌+◌, ◌-◌, ◌*◌, ◌%◌, ◌^◌, ◌≤◌, ◌<◌, ◌≡◌, refl, ap, ◌⊎◌, inl, inr, Bool, true, false, not, ◌&&◌,
  Option, none, some, List, arith, leb, ◌==◌, if◌then◌else◌, Bool-cases, Outcome, done, panic,
  Yields, Yields-weaken,
}
use zelda_os.Status.{err_out_of_resource}
use zelda_os.Links.{Ptr, null}
use zelda_os.UserVma.{VmArea, Areas, search_userspace_vma_by_addr}
use zelda_os.KernelVma.{page_size, userspace_bottom}
use zelda_os.Paging.{Pages, is_page_free, get_page}
use zelda_os.Paging.Page.{GotPage, get_page-GotPage}
use zelda_os.Paging.Tables.Sound.{IsSound}
use zelda_os.UserPaging.{Store}
use zelda_os.UserPaging.Area.{frame_for, map_frame, handle_userspace_page_fault}
use zelda_os.UserPaging.Enter.{directory_test}
use zelda_os.UserPaging.Frame.{FrameResult, map_frame-FrameResult, IsFrame, FaultResult, to_fault}

module _ (start boundary : ℕ) (aligned : start % page_size ≡ 0) (above_zero : 0 < start)
    (room : boundary + page_size * 2 ≤ 2 ^ 32) where
  -- what `frame_for` comes to
  abbrev FrameGot : VmArea → (addr : ℕ) → Pages → ℕ × Pages → Type 0
  FrameGot v addr s (frame, pages) =
      ((v.exact ≡ true) × IsFrame true v addr frame s pages)
      ⊎ ((v.exact ≡ false) × GotPage start boundary aligned s (frame, pages))

  frame_for-FrameGot :
      (v : VmArea) (addr : ℕ) (s : Pages)
      → s.fast_page_addr % page_size ≡ 0
      → Yields (frame_for start boundary v addr s) (FrameGot v addr s)
  unfolding frame_for
  frame_for-FrameGot v addr s whole = by v.exact refl
    where
      by :
          (x : Bool)
          → v.exact ≡ x
          → Yields
              (if x
                then some (done ((v.phy_addr + addr + 2 ^ 64 - v.virt_addr) % 2 ^ 32, s))
                else get_page start boundary s)
              (FrameGot v addr s)
      by true e = inl (e, (refl, refl))
      by false e =
          Yields-weaken (get_page start boundary s) (GotPage start boundary aligned s)
            (FrameGot v addr s) (get_page-GotPage start boundary aligned above_zero room s whole)
            (λ r got. inr (e, got))

  serve_frame :
      (exact : Bool) (dir : ℕ) (v : VmArea) (addr : ℕ) (s : Store)
      → IsSound dir s.machine
      → (frame : ℕ) (pages : Pages) → v.exact ≡ exact
      → IsFrame exact v addr frame s.pages pages
      → frame < 2 ^ 32
      → Yields
          (map_frame start boundary dir v addr frame (record s { pages = pages }))
          (FaultResult dir v addr s)
  serve_frame exact dir v addr s sound frame pages e is small =
      let t : Store = record s { pages = pages } in
      Yields-weaken (map_frame start boundary dir v addr frame t) (FrameResult dir v addr frame t)
        (FaultResult dir v addr s)
        (map_frame-FrameResult start boundary dir v addr frame t sound small)
        (to_fault exact dir v addr frame s pages e is)

  -- the frame of an area is found and mapped, or nothing is
  served :
      (dir : ℕ) (v : VmArea) (addr : ℕ) (s : Store)
      → IsSound dir s.machine
      → (o : Option (Outcome (ℕ × Pages))) → Yields o (FrameGot v addr s.pages)
      → Yields
          (elim o [
            | none ↦ none
            | some panic ↦ some panic
            | some (done (frame, pages)) ↦ elim (not v.exact && frame == 0) [
              | true ↦ some (done (err_out_of_resource, record s { pages = pages }))
              | false ↦ map_frame start boundary dir v addr frame (record s { pages = pages })
            ]
          ])
          (FaultResult dir v addr s)
  served dir v addr s sound none h = absurd h
  served dir v addr s sound (some panic) h = absurd h
  served dir v addr s sound (some (done (frame, pages))) (inl (e, is)) =
      let small : frame < 2 ^ 32 = omega (arith, is.0) in
      let t : (not v.exact && frame == 0) ≡ false = rw e refl in
      rw t (serve_frame true dir v addr s sound frame pages e is small)
  served dir v addr s sound (some (done (frame, pages)))
        (inr (e, (inl (z, same, no_page), whole))) =
      let t : (not v.exact && frame == 0) ≡ true = rw (e, z) refl in
      rw t (inr (refl, (sound, λ w. refl), λ b. ap (λ (m : ℕ → ℕ). is_page_free m b) same))
  served dir v addr s sound (some (done (frame, pages))) (inr (e, (inr (low, high, w, m), whole))) =
      let t : (not v.exact && frame == 0) ≡ false = rw e (ground (arith, low, above_zero)) in
      rw t (serve_frame false dir v addr s sound frame pages e m (omega (arith, high, room)))

  -- For a directory whose tables are different pages in use, a memory as `get_page` asks for, an
  -- address of the user's space and a task that runs in user mode, `handle_userspace_page_fault`
  -- ends and fails no ASSERT. If it returns OK then `virt2phy` finds a frame for the address, the
  -- one that belongs to it if the area is mapped exactly and else a page of memory that was free
  -- and is now occupied; `virt2phy` finds for every other page what it found before, and the
  -- tables are different pages in use again. Else `virt2phy` finds for every address what it
  -- found before, and every page of memory is as free or as occupied as before.
  pub handle_userspace_page_fault-FaultResult :
      (dir : ℕ) (areas : Areas) (vma_list : List Ptr) (linear : ℕ) (s : Store)
      → IsSound dir s.machine
      → s.pages.fast_page_addr % page_size ≡ 0
      → userspace_bottom ≤ linear
      → Yields
          (handle_userspace_page_fault start boundary dir true areas vma_list linear s)
          (FaultResult dir (areas (search_userspace_vma_by_addr areas vma_list linear)) linear s)
  unfolding handle_userspace_page_fault
  handle_userspace_page_fault-FaultResult dir areas vma_list linear s sound whole low =
      let z = directory_test dir sound.directory.0 in
      let l : leb userspace_bottom linear ≡ true = ground (arith, low) in
      let vma : Ptr = search_userspace_vma_by_addr areas vma_list linear in
      let guard : (not (dir == 0) && true && leb userspace_bottom linear) ≡ true = rw (z, l) refl in
      elim (Bool-cases (vma == null)) [
        | inl missing ↦
            rw (guard, handle_userspace_page_fault, missing)
              (inr (refl, (sound, λ v. refl), λ b. refl))
        | inr found ↦
            rw (guard, handle_userspace_page_fault, found)
              (served dir (areas vma) linear s sound
                (frame_for start boundary (areas vma) linear s.pages)
                (frame_for-FrameGot (areas vma) linear s.pages whole))
      ]
