-- ===== src/UserPaging/Frame.antt =====
-- A frame is mapped for a task, or given back.
use zelda_os.Prelude.{
  ℕ, ◌+◌, ◌-◌, ◌/◌, ◌%◌, ◌^◌, ◌<◌, ◌≡◌, refl, sym, ap, subst, ◌∙◌, ◌≢◌, ◌⊎◌, inl, inr, Bool, true,
  false, ◌||◌, Option, none, some, arith, ◌==◌, if◌then◌else◌, ==_iff, ==_false, Bool-cases,
  Outcome, done, panic, Yields,
}
use zelda_os.Status.{Status, ok, is_ok}
use zelda_os.UserVma.{VmArea}
use zelda_os.Paging.{Pages, is_page_free, free_pages, free_page}
use zelda_os.Paging.Bitmap.{mark_page_as_free-same, mark_page_as_free-other, is_page_free-frame}
use zelda_os.Paging.Scan.{Marked}
use zelda_os.Paging.Tables.{Machine}
use zelda_os.Paging.Tables.Sound.{IsSound}
use zelda_os.Paging.Tables.Enter.{Mapped}
use zelda_os.UserPaging.{Store, userspace_map_page}
use zelda_os.UserPaging.Area.{map_frame}
use zelda_os.UserPaging.Enter.{Unchanged, MapResult, userspace_map_page-MapResult}

-- what `map_frame` comes to
abbrev pub FrameResult : (dir : ℕ) → VmArea → (addr frame : ℕ) → Store → Status × Store → Type 0
FrameResult dir v addr frame s (rc, t) =
    ((rc ≡ ok) × Mapped dir (addr % 2 ^ 32) frame s.machine t.machine × (t.pages ≡ s.pages))
    ⊎ ((is_ok rc ≡ false)
        × Unchanged dir s.machine t.machine
        × (t.pages ≡ (if v.exact then s.pages else free_page frame s.pages)))

pub map_frame-FrameResult :
    (start boundary dir : ℕ) (v : VmArea) (addr frame : ℕ) (s : Store)
    → IsSound dir s.machine
    → frame < 2 ^ 32
    → Yields (map_frame start boundary dir v addr frame s) (FrameResult dir v addr frame s)
unfolding map_frame
map_frame-FrameResult start boundary dir v addr frame s sound small =
    by
      (userspace_map_page dir (addr % 2 ^ 32) frame v.write_permission v.page_writethrough
        v.page_cachedisable s.machine)
      refl
      (userspace_map_page-MapResult dir s.machine (addr % 2 ^ 32) frame v.write_permission
        v.page_writethrough v.page_cachedisable sound (omega arith) small)
  where
    result :
        (rc : Status) (m : Machine)
        → MapResult dir (addr % 2 ^ 32) frame s.machine (rc, m)
        → FrameResult dir v addr frame s (
          rc,
          record {
            machine = m;
            pages = if is_ok rc || v.exact then s.pages else free_page frame s.pages;
          },
        )
    result rc m (inl (e, mapped)) = inl (e, mapped, rw e refl)
    result rc m (inr (inl (e, low, same))) = inr (rw e refl, same, rw e refl)
    result rc m (inr (inr (e, full, same))) = inr (rw e refl, same, rw e refl)

    by :
        (o : Option (Outcome (Status × Machine)))
        → userspace_map_page dir
            (addr % 2 ^ 32)
            frame
            v.write_permission
            v.page_writethrough
            v.page_cachedisable
            s.machine
          ≡ o
        → Yields o (MapResult dir (addr % 2 ^ 32) frame s.machine)
        → Yields (map_frame start boundary dir v addr frame s) (FrameResult dir v addr frame s)
    by none e h = absurd h
    by (some panic) e h = absurd h
    by (some (done (rc, m))) e h = rw (e, map_frame) (result rc m h)

-- A page that is given out and back is as it was, and so are the others.
unmarked :
    (s t : Pages) (a : ℕ)
    → Marked s.free_page_bitmap t.free_page_bitmap a
    → (b : ℕ) → is_page_free (free_page a t).free_page_bitmap b ≡ is_page_free s.free_page_bitmap b
unfolding free_page free_pages
unmarked s t a (was, now, others) b = elim (Bool-cases (a / 4096 == b / 4096)) [
  | inl same ↦
      let e : a / 4096 ≡ b / 4096 = (==_iff (a / 4096) (b / 4096)).0 same in
      mark_page_as_free-same t.free_page_bitmap a b e
      ∙ sym was
      ∙ is_page_free-frame s.free_page_bitmap a b e
  | inr differ ↦
      let ne : a / 4096 ≢ b / 4096 = ==_false (a / 4096) (b / 4096) differ in
      mark_page_as_free-other t.free_page_bitmap a b ne ∙ others b ne
]

-- the frame that a page of an area is mapped to: the one that belongs to the address if the area is
-- mapped exactly, else one that was free
abbrev pub IsFrame : Bool → VmArea → (addr frame : ℕ) → (old new : Pages) → Type 0
IsFrame true v addr frame old new =
    (frame ≡ (v.phy_addr + addr + 2 ^ 64 - v.virt_addr) % 2 ^ 32) × (new ≡ old)
IsFrame false v addr frame old new = Marked old.free_page_bitmap new.free_page_bitmap frame

-- what the page fault handler comes to
abbrev pub FaultResult : (dir : ℕ) → VmArea → (addr : ℕ) → Store → Status × Store → Type 0
FaultResult dir v addr s (rc, t) =
    ((rc ≡ ok)
      × ((frame : ℕ) × IsFrame v.exact v addr frame s.pages t.pages
          × Mapped dir (addr % 2 ^ 32) frame s.machine t.machine))
    ⊎ ((is_ok rc ≡ false)
        × Unchanged dir s.machine t.machine
        × ((b : ℕ)
            → is_page_free t.pages.free_page_bitmap b ≡ is_page_free s.pages.free_page_bitmap b))

pub to_fault :
    (exact : Bool) (dir : ℕ) (v : VmArea) (addr frame : ℕ) (s : Store) (pages : Pages)
    → v.exact ≡ exact
    → IsFrame exact v addr frame s.pages pages
    → (r : Status × Store) → FrameResult dir v addr frame (record s { pages = pages }) r
    → FaultResult dir v addr s r
to_fault exact dir v addr frame s pages e is r (inl (fine, mapped, same)) = inl (
  fine,
  (
    frame,
    subst (λ (p : Pages). IsFrame v.exact v addr frame s.pages p) (sym same)
        (subst (λ (x : Bool). IsFrame x v addr frame s.pages pages) (sym e) is),
    mapped,
  ),
)
to_fault true dir v addr frame s pages e is r (inr (bad, same, back)) =
    let kept : (if v.exact then pages else free_page frame pages) ≡ s.pages = rw e is.1 in
    inr (bad, same, λ b. ap (λ (p : Pages). is_page_free p.free_page_bitmap b) (back ∙ kept))
to_fault false dir v addr frame s pages e is r (inr (bad, same, back)) =
    let freed : (if v.exact then pages else free_page frame pages) ≡ free_page frame pages =
      rw e refl in
    inr (
      bad,
      same,
      λ b.
          ap (λ (p : Pages). is_page_free p.free_page_bitmap b) (back ∙ freed)
          ∙ unmarked s.pages pages frame is b,
    )
