-- ===== src/Security/Runs.antt =====
-- Runs of the security modules on small inputs.
use kobako.Common.{
  ℕ, ◌≡◌, ◌≤◌, ◌⊎◌, refl, Bool, true, false, Option, none, some, List, [], ◌∷◌, codes, bytes_eq, ok,
  err,
}
use kobako.Security.Files.{
  permission_denied, out_of_memory, reg_file, Access, read, read_write, FMode,
}
use kobako.Security.OpenFlags
use kobako.Security.OpenFlags.{
  OpenHow, OpenFlags, build_open_flags, Coherent, build_open_flags-Coherent, mask_of,
}
use kobako.Security.Creds.{
  SecurityPath, Dentry, Blob, allowed_access, SecurityOperations, call_int_hook, security_file_open,
  security_file_truncate,
}
use kobako.Security.Creds.Committed.{
  VmCommitted, security_vm_enough_memory, vm_unacct_memory, Held, none_held, charged, returned,
  here, there, sum, Held-sum,
}
use kobako.Security.MountPolicies.{Mount, guards, restrict_self, kobako_security}
use kobako.Security.Confinement.{
  Judged, link, hook, module_of, Unmoved, restrict_self-Judged, restrict_self-Unmoved,
  truncate-Judged,
}

-- Reads are allowed anywhere, changes only of one file.
abbrev only_notes : List ℕ → Access → Bool
only_notes path read = true
only_notes path read_write = bytes_eq path (codes "/data/notes")

abbrev data_mount : Mount
data_mount = record { at = codes "/data"; policy = some only_notes; mnt = 7 }

abbrev notes : SecurityPath
notes = record { mnt = 7; name = codes "/notes" }

abbrev other : SecurityPath
other = record { mnt = 7; name = codes "/other" }

abbrev caller : List (SecurityOperations ℕ)
caller = kobako_security ∷ []

notes_may_link :
    call_int_hook (hook (link notes notes)) (restrict_self caller (data_mount ∷ [])) ≡ ok tt
unfolding call_int_hook restrict_self
notes_may_link = refl

other_may_not :
    call_int_hook (hook (link notes other)) (restrict_self caller (data_mount ∷ []))
    ≡ err permission_denied
unfolding call_int_hook restrict_self
other_may_not = refl

notes_are_guarded : guards (module_of data_mount only_notes) 7 ≡ true
unfolding guards
notes_are_guarded = refl

restrict_self-Judged_example : Judged (module_of data_mount only_notes) notes read_write
restrict_self-Judged_example =
    restrict_self-Judged caller (data_mount ∷ []) 0 data_mount only_notes (link notes notes) 1 notes
      refl refl notes_may_link refl notes_are_guarded

abbrev note_dentry : Dentry
note_dentry = record { id = 3; kind = ok reg_file }

notes_stay :
    call_int_hook
      (λ m. m.path_rename notes notes note_dentry note_dentry)
      (restrict_self caller (data_mount ∷ []))
    ≡ ok tt
unfolding call_int_hook restrict_self
notes_stay = refl

restrict_self-Unmoved_example :
    Unmoved (module_of data_mount only_notes) notes notes note_dentry note_dentry
restrict_self-Unmoved_example =
    restrict_self-Unmoved caller (data_mount ∷ []) 0 data_mount only_notes notes notes note_dentry
      note_dentry refl refl notes_are_guarded notes_are_guarded notes_stay

abbrev to_write : OpenHow
to_write = record OpenFlags.default { write = true; sync = true }

abbrev written : FMode
written = record {
  read = false;
  write = true;
  lseek = true;
  pread = true;
  pwrite = true;
  stream = false;
  created = false;
  path = false;
}

abbrev kept : List (Option (Blob ℕ))
kept = none ∷ some (allowed_access read_write) ∷ []

notes_open :
    security_file_open notes reg_file written to_write (restrict_self caller (data_mount ∷ []))
    ≡ ok kept
unfolding security_file_open restrict_self
notes_open = refl

notes_truncate : security_file_truncate kept (restrict_self caller (data_mount ∷ [])) ≡ ok tt
unfolding security_file_truncate restrict_self
notes_truncate = refl

truncate-Judged_example : (false ≡ true) ⊎ Judged (module_of data_mount only_notes) notes read_write
truncate-Judged_example =
    truncate-Judged caller (data_mount ∷ []) 0 data_mount only_notes notes reg_file written to_write
      kept refl refl notes_are_guarded notes_open notes_truncate

abbrev write_flags : OpenFlags
write_flags = record {
  open_flag = record to_write { dsync = true };
  acc_mode = mask_of to_write;
  lookup_follow = false;
  lookup_directory = false;
}

write_opens : build_open_flags to_write ≡ ok write_flags
unfolding build_open_flags
write_opens = refl

build_open_flags-Coherent_example : Coherent to_write write_flags
build_open_flags-Coherent_example = build_open_flags-Coherent to_write write_flags write_opens

abbrev held_two : VmCommitted
held_two = record { limit = 100; used = 90 }

one_charge :
    security_vm_enough_memory 60 (record { limit = 100; used = 0 })
    ≡ ok (record { limit = 100; used = 60 })
unfolding security_vm_enough_memory
one_charge = refl

two_charges : security_vm_enough_memory 30 (record { limit = 100; used = 60 }) ≡ ok held_two
unfolding security_vm_enough_memory
two_charges = refl

third_is_refused : security_vm_enough_memory 11 held_two ≡ err out_of_memory
unfolding security_vm_enough_memory
third_is_refused = refl

held_two-Held : Held (30 ∷ 60 ∷ []) held_two
held_two-Held = charged 30 (charged 60 (none_held 100) one_charge) two_charges

Held-sum_example :
    ((vm_unacct_memory 60 held_two).used ≡ sum (30 ∷ []))
    × ((vm_unacct_memory 60 held_two).used ≤ (vm_unacct_memory 60 held_two).limit)
Held-sum_example =
    Held-sum (30 ∷ []) (vm_unacct_memory 60 held_two) (returned 60 held_two-Held (there here))
