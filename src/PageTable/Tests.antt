-- ===== src/PageTable/Tests.antt =====
-- Runs of the operations on the page tables of a small process.
use operating_systems_cs.Base.{ℕ, ◌≡◌, refl, ◌==◌, none, some, if◌then◌else◌, arith}
use operating_systems_cs.Frames.Source.{page_list_source, frame_used}
use operating_systems_cs.PageTable.{frame_of, install, pfn_unmap, change_permissions}
use operating_systems_cs.PageTable.Sample.{
  sample, sample_place, sample-IsTree, os_entries, tables_left, user_left,
}
use operating_systems_cs.PageTable.Lookup.{translate}
use operating_systems_cs.PageTable.Write.{page_of}
use operating_systems_cs.PageTable.Tables.{AreUserBits}
use operating_systems_cs.PageTable.Install.{IsInstalled, install-IsInstalled}
use operating_systems_cs.PageTable.Unmap.{IsDropped, pfn_unmap-IsDropped}
use operating_systems_cs.PageTable.Permissions.{expected, translate-change_permissions}

write_bits : AreUserBits 7
write_bits = record { small = omega arith; odd = refl; user_bit = refl }

maps_second_page :
    IsInstalled page_list_source os_entries 1 0x180400000 7 sample
      (install page_list_source 7 7 sample 1 0x180400000)
maps_second_page =
    install-IsInstalled page_list_source os_entries sample_place 1 sample 7 7 0x180400000
      sample-IsTree write_bits write_bits refl refl refl tables_left user_left

pfn_unmap-IsDropped_example :
    ((a : ℕ)
      → translate (pfn_unmap page_list_source sample 1 0x180200000) 1 a
        ≡ (if page_of a == page_of 0x180200000 then none else translate sample 1 a))
    × ((e : ℕ)
        → translate sample 1 0x180200000 ≡ some e
        → IsDropped page_list_source
            (frame_of e)
            sample
            (pfn_unmap page_list_source sample 1 0x180200000))
pfn_unmap-IsDropped_example =
    pfn_unmap-IsDropped page_list_source os_entries sample_place 1 sample sample-IsTree 0x180200000

read_only_bits :
    translate (change_permissions sample 1 0x180200000 1) 1 0x180200008
    ≡ expected frame_used os_entries sample_place 1 sample sample-IsTree 0x180200000 1
        (translate sample 1 0x180200000)
        0x180200008
read_only_bits =
    translate-change_permissions frame_used os_entries sample_place 1 sample sample-IsTree
      0x180200000 1 0x180200008

unmapped : translate (pfn_unmap page_list_source sample 1 0x180200000) 1 0x180200000 ≡ none
unfolding pfn_unmap
unmapped = refl
