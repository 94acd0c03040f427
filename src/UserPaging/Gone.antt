-- ===== src/UserPaging/Gone.antt =====
-- What is left when a page of an area is evicted, whether it was there or not.
use zelda_os.Prelude.{
  ℕ, ◌/◌, ◌^◌, ◌<◌, ◌≡◌, refl, sym, subst, ◌∙◌, ◌≢◌, inl, inr, Bool, true, false, List, arith, ◌==◌,
  ==_iff, ==_false, Bool-cases, Outcome, done, panic, Ends,
}
use zelda_os.Status.{Status, ok, err_not_present}
use zelda_os.Links.{Ptr, null}
use zelda_os.UserVma.{Areas, search_userspace_vma_by_addr}
use zelda_os.Paging.{Pages, is_page_free}
use zelda_os.Paging.Bitmap.{is_page_free-frame}
use zelda_os.Paging.Tables.{virt2phy}
use zelda_os.Paging.Tables.Sound.{IsSound}
use zelda_os.UserPaging.{Store, userspace_evict_page}
use zelda_os.UserPaging.Tidy.{IsTidy, Evicted, userspace_evict_page-Evicted}
use zelda_os.UserPaging.Evict.{Returned, EvictResult, userspace_evict_page-EvictResult}
use zelda_os.UserPaging.Enter.{directory_test}

-- What evicting a page comes to if an area is found for it: `found` says that the area is mapped
-- exactly.
pub record IsGone (dir virt : ℕ) (exact reclaim : Bool) (s t : Store) : Type 0 where
  pub sound : IsSound dir t.machine
  pub unmapped : virt2phy t.machine.memory dir virt ≡ 0
  pub others :
      (v : ℕ)
      → v < 2 ^ 32
      → v / 4096 ≢ virt / 4096
      → virt2phy t.machine.memory dir v ≡ virt2phy s.machine.memory dir v
  pub freed :
      exact ≡ false
      → virt2phy s.machine.memory dir virt ≢ 0
      → is_page_free t.pages.free_page_bitmap (virt2phy s.machine.memory dir virt) ≡ true
  pub still_free :
      (b : ℕ)
      → is_page_free s.pages.free_page_bitmap b ≡ true
      → is_page_free t.pages.free_page_bitmap b ≡ true
  pub tidy : reclaim ≡ true → virt2phy s.machine.memory dir virt ≢ 0 → IsTidy dir virt t.machine

Returned-freed :
    (exact : Bool) (phy : ℕ) (old new : Pages)
    → Returned exact phy old new
    → exact ≡ false
    → is_page_free new.free_page_bitmap phy ≡ true
Returned-freed true phy old new h e = absurd (ground arith)
Returned-freed false phy old new h e = h.0

Returned-still_free :
    (exact : Bool) (phy : ℕ) (old new : Pages) (b : ℕ)
    → Returned exact phy old new
    → is_page_free old.free_page_bitmap b ≡ true
    → is_page_free new.free_page_bitmap b ≡ true
Returned-still_free true phy old new b h free = rw h free
Returned-still_free false phy old new b h free = elim (Bool-cases (phy / 4096 == b / 4096)) [
  | inl same ↦ sym (is_page_free-frame new.free_page_bitmap phy b ((==_iff _ _).0 same)) ∙ h.0
  | inr other ↦ h.1 b (==_false _ _ other) ∙ free
]

IsGone-both :
    (dir virt : ℕ) (exact reclaim : Bool) (s : Store) (r : Status × Store)
    → IsSound dir s.machine
    → EvictResult dir virt exact s r
    → Evicted dir virt reclaim s r
    → IsGone dir virt exact reclaim s r.1
IsGone-both dir virt exact reclaim s (rc, t) sound (inl (fine, cleared, back)) (inr (fine', tidy)) =
    record {
      sound = cleared.0;
      unmapped = cleared.1;
      others = cleared.2;
      freed = λ e n. Returned-freed exact _ s.pages t.pages back e;
      still_free = λ b free. Returned-still_free exact _ s.pages t.pages b back free;
      tidy = λ e n. tidy e;
    }
IsGone-both dir virt exact reclaim s (rc, t) sound (inl (fine, cleared, back)) (inl (bad, z)) =
    absurd (let e : ok ≡ err_not_present = sym fine ∙ bad in ground arith)
IsGone-both dir virt exact reclaim s (rc, t) sound (inr (bad, same)) (inr (fine, tidy)) =
    absurd (let e : ok ≡ err_not_present = sym fine ∙ bad in ground arith)
IsGone-both dir virt exact reclaim s (rc, t) sound (inr (bad, same)) (inl (bad', z)) =
    subst (λ (u : Store). IsGone dir virt exact reclaim s u) (sym same)
      (record {
        sound = sound;
        unmapped = z;
        others = λ v small other. refl;
        freed = λ e n. absurd (n z);
        still_free = λ b free. free;
        tidy = λ e n. absurd (n z);
      })

Ends-both :
    {A : Type 0} (o : Outcome A) (P Q R : A → Type 0)
    → Ends o P
    → Ends o Q
    → ((a : A) → P a → Q a → R a)
    → Ends o R
Ends-both (done a) P Q R p q k = k a p q
Ends-both panic P Q R p q k = absurd p

pub userspace_evict_page-IsGone :
    (dir : ℕ) (areas : Areas) (vma_list : List Ptr) (virt : ℕ) (reclaim : Bool) (s : Store)
    → IsSound dir s.machine
    → virt < 2 ^ 32
    → (search_userspace_vma_by_addr areas vma_list virt == null) ≡ false
    → Ends (userspace_evict_page dir areas vma_list virt reclaim s) (λ r.
      IsGone dir virt
        (areas (search_userspace_vma_by_addr areas vma_list virt)).exact
        reclaim
        s
        r.1)
userspace_evict_page-IsGone dir areas vma_list virt reclaim s sound small found =
    let exact = (areas (search_userspace_vma_by_addr areas vma_list virt)).exact in
    Ends-both (userspace_evict_page dir areas vma_list virt reclaim s)
      (EvictResult dir virt exact s) (Evicted dir virt reclaim s)
      (λ r. IsGone dir virt exact reclaim s r.1)
      (userspace_evict_page-EvictResult dir areas vma_list virt reclaim s sound small)
      (userspace_evict_page-Evicted dir areas vma_list virt reclaim s
        (directory_test dir sound.directory.0) found)
      (λ r p q. IsGone-both dir virt exact reclaim s r sound p q)
