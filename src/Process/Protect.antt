-- ===== src/Process/Protect.antt =====
-- What `mprotect` achieves for the page tables.
use operating_systems_cs.Base.{
  ℕ, ◌+◌, ◌*◌, ◌^◌, ◌≡◌, ◌≢◌, refl, true, false, Bool, ◌<◌, ◌≤◌, ◌==◌, if◌then◌else◌, Option, none,
  some, List, [], ◌∷◌, arith, inl, inr, Bool-cases, ◌∙◌, sym, ap, subst, add64, get_elem?, ltb,
}
use operating_systems_cs.Frames.Source.{FrameSource}
use operating_systems_cs.MemoryMap.Areas.{
  VmArea, AreaTable, page_round, page_size, each_page, each_page-get_elem?,
}
use operating_systems_cs.MemoryMap.Protect.Calls.{table, mprotect-Cases}
use operating_systems_cs.MemoryMap.Protect.{
  vm_area_mprotect, same_page, protect_areas, range_found, protect_allowed,
}
use operating_systems_cs.PageTable.{Machine, change_permissions, frame_of}
use operating_systems_cs.PageTable.Lookup.{translate}
use operating_systems_cs.PageTable.Tree.{IsTree}
use operating_systems_cs.PageTable.Write.{page_of}
use operating_systems_cs.PageTable.Permissions.{
  new_bits, expected, translate-change_permissions, change_permissions-IsTree,
}
use operating_systems_cs.Process.{Process, protect_pages, mprotect}

new_bits_again :
    (prot e : ℕ)
    → (new_bits prot (new_bits prot e) ≡ new_bits prot e)
      × (frame_of (new_bits prot e) ≡ frame_of e)
new_bits_again prot e = (omega arith, omega arith)

some_page : (l : List ℕ) (x : ℕ) → get_elem? l 0 ≡ some x → (i : ℕ) × (r : List ℕ) × (l ≡ i ∷ r)
some_page [] x e = absurd (ground arith)
some_page (i ∷ r) x e = (i, r, refl)

each_page_first :
    (addr stop : ℕ)
    → addr < stop
    → stop + 4096 ≤ 2 ^ 64
    → (i : ℕ) × (r : List ℕ) × (each_page addr stop ≡ i ∷ r)
each_page_first addr stop lt room =
    let first : ltb (addr + page_size * 0) stop ≡ true = ground arith in
    some_page (each_page addr stop) (addr + page_size * 0)
      (each_page-get_elem? addr stop 0 room ∙ rw first refl)

protect_areas_pages :
    (t : AreaTable) (addr len prot : ℕ) (head : VmArea)
    → (protect_areas t addr len prot head).ret ≡ some 0
    → (protect_areas t addr len prot head).pages ≡ same_page addr (each_page addr (add64 addr len))
unfolding protect_areas
protect_areas_pages t addr len prot head ok = elim (Bool-cases (ltb addr head.vm_start)) [
  | inl low ↦ absurd (cc (rw low at ok))
  | inr high ↦ elim (Bool-cases (range_found addr (add64 addr len) t.vm_area)) [
    | inr gap ↦ absurd (cc (rw (high, gap) at ok))
    | inl found ↦ elim (Bool-cases (protect_allowed addr (add64 addr len) prot t.vm_area)) [
      | inr full ↦ absurd (cc (rw (high, found, full) at ok))
      | inl room ↦ rw (high, found, room) refl
    ]
  ]
]

chain_pages :
    (l : List VmArea) (n addr len prot : ℕ)
    → page_round len ≢ 0
    → (vm_area_mprotect (table l n) addr len prot).ret ≡ some 0
    → (vm_area_mprotect (table l n) addr len prot).pages
      ≡ same_page addr (each_page addr (add64 addr (page_round len)))
chain_pages [] n addr len prot ne ok = elim (mprotect-Cases [] n addr len prot) [
  | inl f ↦ absurd (cc (rw f at ok))
  | inr (z, same) ↦ absurd (ne z)
]
chain_pages (c ∷ r) n addr len prot ne ok = elim (mprotect-Cases (c ∷ r) n addr len prot) [
  | inl f ↦ absurd (cc (rw f at ok))
  | inr (inl (z, same)) ↦ absurd (ne z)
  | inr (inr (ne', work)) ↦
      rw work (protect_areas_pages (table (c ∷ r) n) addr (page_round len) prot c (rw work at ok))
]

mprotect_pages :
    (t : AreaTable) (addr len prot : ℕ)
    → page_round len ≢ 0
    → (vm_area_mprotect t addr len prot).ret ≡ some 0
    → (vm_area_mprotect t addr len prot).pages
      ≡ same_page addr (each_page addr (add64 addr (page_round len)))
mprotect_pages t addr len prot ne ok = chain_pages t.vm_area t.num_vm_area addr len prot ne ok

module _ (src : FrameSource) (kernel : List ℕ → Bool) (place : ℕ → Option (List ℕ))
    (pgd addr prot : ℕ) where
  -- The bits of an entry whose frame has one reference.
  abbrev pub protected_entry : (ℕ → ℕ) → ℕ → ℕ
  protected_entry count e = if count (frame_of e) == 1 then new_bits prot e else e

  -- Calls for the page of `addr`.
  pub record IsProtected (m m' : Machine src.Pages) : Type 0 where
    pub tree : IsTree src.in_use kernel place pgd m'
    pub count : m'.refcount ≡ m.refcount
    pub others : (a : ℕ) → page_of a ≢ page_of addr → translate m' pgd a ≡ translate m pgd a
    pub gone : translate m pgd addr ≡ none → translate m' pgd addr ≡ none
    pub here :
        (e : ℕ)
        → translate m pgd addr ≡ some e
        → translate m' pgd addr ≡ some (protected_entry m.refcount e)

  one_call :
      (m : Machine src.Pages)
      → IsTree src.in_use kernel place pgd m
      → IsProtected m (change_permissions m pgd addr prot)
  one_call m tree =
      let step = translate-change_permissions src.in_use kernel place pgd m tree addr prot in
      let (tree', count) = change_permissions-IsTree src.in_use kernel place pgd m tree addr prot in
      record {
        tree = tree';
        count = count;
        others = λ a other. step a ∙ apart (translate m pgd addr) a (ground arith);
        gone = λ e.
            step addr
            ∙ ap (λ x. expected src.in_use kernel place pgd m tree addr prot x addr) e
            ∙ e;
        here = λ e is.
            step addr
            ∙ ap (λ x. expected src.in_use kernel place pgd m tree addr prot x addr) is
            ∙ found e is (ground arith);
      }
    where
      apart :
          (x : Option ℕ) (a : ℕ)
          → (page_of a == page_of addr) ≡ false
          → expected src.in_use kernel place pgd m tree addr prot x a ≡ translate m pgd a
      apart none a other = refl
      apart (some e) a other = rw other refl

      found :
          (e : ℕ)
          → translate m pgd addr ≡ some e
          → (page_of addr == page_of addr) ≡ true
          → expected src.in_use kernel place pgd m tree addr prot (some e) addr
            ≡ some (protected_entry m.refcount e)
      found e is self = elim (Bool-cases (m.refcount (frame_of e) == 1)) [
        | inl single ↦ rw (self, single) refl
        | inr shared ↦ rw (self, shared) is
      ]

  protected_again :
      (count : ℕ → ℕ) (e : ℕ)
      → protected_entry count (protected_entry count e) ≡ protected_entry count e
  protected_again count e =
      let (twice, frame) = new_bits_again prot e in
      elim (Bool-cases (count (frame_of e) == 1)) [
        | inl single ↦
            let still : (count (frame_of (new_bits prot e)) == 1) ≡ true =
              ap (λ f. count f == 1) frame ∙ single in
            rw (single, still) twice
        | inr shared ↦ rw (shared, shared) refl
      ]

  two_calls :
      (m m1 m2 : Machine src.Pages) → IsProtected m m1 → IsProtected m1 m2 → IsProtected m m2
  two_calls m m1 m2 first second = record {
    tree = second.tree;
    count = second.count ∙ first.count;
    others = λ a other. second.others a other ∙ first.others a other;
    gone = λ e. second.gone (first.gone e);
    here = λ e is.
        second.here (protected_entry m.refcount e) (first.here e is)
        ∙ ap some (
            ap (λ f. protected_entry f (protected_entry m.refcount e)) first.count
            ∙ protected_again m.refcount e);
  }

  -- The calls of the loop.
  calls :
      (i : ℕ) (r : List ℕ) (m : Machine src.Pages)
      → IsTree src.in_use kernel place pgd m
      → IsProtected m (protect_pages src m pgd prot (same_page addr (i ∷ r)))
  unfolding same_page protect_pages
  calls i [] m tree = one_call m tree
  calls i (j ∷ r) m tree =
      let first = one_call m tree in
      let m1 = change_permissions m pgd addr prot in
      two_calls m m1 (protect_pages src m1 pgd prot (same_page addr (j ∷ r))) first
        (calls j r m1 first.tree)

  -- If the tables of a process form a tree, then after a call of `mprotect` that returns 0, for at least one
  -- page and a range that ends before the last page of the 64-bit addresses, they still do, and the page of the start address has the new bits if its frame has one reference, and every other page, of
  -- the range too, keeps its entry.
  pub mprotect-IsProtected :
      (p : Process src) (len : ℕ)
      → IsTree src.in_use kernel place pgd p.machine
      → addr + page_round len + 4096 ≤ 2 ^ 64
      → page_round len ≢ 0
      → (mprotect src p pgd addr len prot).0 ≡ some 0
      → IsProtected p.machine (mprotect src p pgd addr len prot).1.machine
  unfolding mprotect
  mprotect-IsProtected p len tree fits ne ok =
      let pages = mprotect_pages p.table addr len prot ne ok in
      let (i, r, e) =
        each_page_first addr (add64 addr (page_round len)) (ground arith) (ground arith) in
      subst (λ ps. IsProtected p.machine (protect_pages src p.machine pgd prot ps))
        (sym (pages ∙ ap (same_page addr) e)) (calls i r p.machine tree)
