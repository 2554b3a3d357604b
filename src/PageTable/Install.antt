-- ===== src/PageTable/Install.antt =====
-- A page that is installed is found at its address, and no other address changes.
use operating_systems_cs.Base.{
  ℕ, ◌+◌, ◌*◌, ◌%◌, ◌^◌, ◌≡◌, refl, ◌≤◌, Bool, true, false, ◌&&◌, ◌==◌, Option, none, some, List,
  [], ◌∷◌, if◌then◌else◌, arith, ap, ◌∙◌, sym,
}
use operating_systems_cs.Threads.{update}
use operating_systems_cs.Frames.Source.{FrameSource, Granted}
use operating_systems_cs.PageTable.{
  Machine, present, user, set_entry, alloc_user, make_tables, install, pgd_index, pud_index,
  pmd_index, pte_index,
}
use operating_systems_cs.PageTable.Lookup.{translate, translate-eq-lookup, indices}
use operating_systems_cs.PageTable.Tree.{IsTree}
use operating_systems_cs.PageTable.Write.{page_of, translate-write, write-IsTree}
use operating_systems_cs.PageTable.Tables.{Tables, AreUserBits, make_tables-Tables}

-- What the installation of a page at `addr` with the bits `access` achieves.
pub record IsInstalled (src : FrameSource) (kernel : List ℕ → Bool) (pgd addr access : ℕ)
    (m m' : Machine src.Pages) : Type 0 where
  pub place : ℕ → Option (List ℕ)
  pub tree : IsTree src.in_use kernel place pgd m'
  pub frame : ℕ
  pub fresh : src.in_use m.user_pages frame ≡ false
  pub taken : src.in_use m'.user_pages frame ≡ true
  pub translated :
      (a : ℕ)
      → translate m' pgd a
        ≡ (if page_of a == page_of addr then some (frame * 4096 + access) else translate m pgd a)
  pub counted : (f : ℕ) → m'.refcount f ≡ update m.refcount frame 1 f

same_frame : (f : ℕ) → (f == f) ≡ true
same_frame f = ground arith

user_bits :
    (f access : ℕ)
    → AreUserBits access
    → (present (f * 4096 + access) && user (f * 4096 + access)) ≡ true
user_bits f access bits = ground (arith, bits.odd, bits.user_bit)

same_before :
    (src : FrameSource) (kernel : List ℕ → Bool) (pgd : ℕ) (m m1 : Machine src.Pages) (pt addr : ℕ)
    → Tables src.in_use kernel pgd (pgd_index addr) (pud_index addr) (pmd_index addr) m pt m1
    → (a : ℕ) → translate m1 pgd a ≡ translate m pgd a
same_before src kernel pgd m m1 pt addr t a =
    translate-eq-lookup m1 pgd a ∙ t.walks (indices a) refl ∙ sym (translate-eq-lookup m pgd a)

module _ (src : FrameSource) (kernel : List ℕ → Bool) (place : ℕ → Option (List ℕ)) (pgd : ℕ)
    (m : Machine src.Pages) (flags access addr : ℕ) (tree : IsTree src.in_use kernel place pgd m)
    (bits : AreUserBits flags) (page_bits : AreUserBits access)
    (k4 : kernel (pgd_index addr ∷ []) ≡ false)
    (k3 : kernel (pud_index addr ∷ pgd_index addr ∷ []) ≡ false)
    (k2 : kernel (pmd_index addr ∷ pud_index addr ∷ pgd_index addr ∷ []) ≡ false) where
  -- If the tables of a process form a tree whose entries outside the kernel's are user entries, the entries
  -- on the way to the address are not the kernel's, and three frames for tables and one for the user are
  -- left, then `install` gives the page of the address a frame
  -- that was not in use, with the wanted bits and one reference; the translation of every other address
  -- and the count of every other frame stay, and the tables still form such a tree.
  pub install-IsInstalled :
      3 ≤ src.room m.pt_pages
      → 1 ≤ src.room m.user_pages
      → IsInstalled src kernel pgd addr access m (install src flags access m pgd addr)
  unfolding install
  install-IsInstalled tables_left frames_left =
      let (pt, m1) = make_tables src flags m pgd addr in
      let t : Tables src.in_use kernel pgd (pgd_index addr) (pud_index addr) (pmd_index addr) m pt
          m1 =
        make_tables-Tables src kernel place pgd m flags addr tree bits k4 k3 k2 tables_left in
      let g : Granted src.in_use src.room (src.alloc m1.user_pages) m1.user_pages =
        src.alloc-Granted m1.user_pages (rw (t.user_region.0) frames_left) in
      let v = g.frame * 4096 + access in
      let m' =
        set_entry
          (record m1 {
            user_pages = g.next;
            refcount = update m1.refcount g.frame 1;
            user_reg_pages = (m1.user_reg_pages + 1) % 2 ^ 64;
          })
          pt (pte_index addr) v in
      let on : (present v && user v) ≡ true = user_bits g.frame access page_bits in
      let write : (a : ℕ)
          → translate m' pgd a ≡ (
              if page_of a == page_of addr
              then (if present v && user v then some v else none)
              else translate m1 pgd a) =
        translate-write src.in_use kernel t.place pgd m1 m' t.tree pt addr v t.reached
          (λ x i. refl) in
      let self = same_frame g.frame in
      rw (g.granted, alloc_user)
        (record {
          place = t.place;
          tree =
              write-IsTree src.in_use kernel t.place pgd m1 m' t.tree pt addr v t.reached
                (λ x i. refl) refl;
          frame = g.frame;
          fresh = ap (λ x. src.in_use x g.frame) (sym t.user_region.0) ∙ g.fresh;
          taken = g.marks g.frame ∙ rw self refl;
          translated = λ a. write a ∙ rw (on, same_before src kernel pgd m m1 pt addr t a) refl;
          counted = λ f. ap (λ x. update x g.frame 1 f) t.user_region.1;
        })
