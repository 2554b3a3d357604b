-- ===== src/Inodes/Tests.antt =====
-- An empty inode table, and the theorem at it.
use operating_systems_cs.Base.{ℕ, ◌≡◌, refl, none, some, [], ◌∷◌, List}
use operating_systems_cs.Files.{File, Store}
use operating_systems_cs.Inodes.{
  Slot, SuperBlock, flat_lookup_inode, flat_create_inode, flat_remove_inode, do_regular_file_open,
  lookup_loop, free_loop, same_name,
}

abbrev empty_slot : Slot
empty_slot = record {
  is_valid = 0;
  filename = [];
  ref_count = 0;
  inode = record { mode = 0; s_pos = 4096; e_pos = 8192; max_pos = 4096; file_size = 0 };
}

abbrev empty_table : SuperBlock
empty_table = record { num_files = 0; inode = λ _. empty_slot }

abbrev name : List ℕ
name = 97 ∷ 98 ∷ []

abbrev empty_store : Store
empty_store = record { file = λ _. none; pipe = λ _. none; file_objects = 0 }

abbrev old_page : File
old_page = record { type = 9; mode = 9; offp = 9; ref_count = 9; inode = none; pipe = none }

created_and_found :
    flat_lookup_inode
      (do_regular_file_open empty_table empty_store (λ _. none) name 9 1 1 old_page).0
      name
    ≡ some 0
unfolding do_regular_file_open flat_create_inode lookup_loop free_loop same_name
created_and_found = refl

removed_and_gone :
    flat_lookup_inode
      (flat_remove_inode
        (do_regular_file_open empty_table empty_store (λ _. none) name 9 1 1 old_page).0
        0)
      name
    ≡ none
unfolding do_regular_file_open flat_create_inode flat_remove_inode lookup_loop free_loop same_name
removed_and_gone = refl
