-- ===== src/Failure.antt =====
-- kernel/failure.c: `fatal_failure` prints its message and executes `ud2a`, so no call returns.
-- One constructor for each call site's message.
use Prim.Native.String.{String}

pub data Failure : Type 0 where
  no_heap_space out_of_pages : Failure
  too_many_entries no_memory_information : Failure
  wrong_level not_present not_2mb_page : Failure
  no_room_for_guest no_guest_image : Failure
  inconsistent_vmcb : Failure
  bad_format : Failure
  unknown_vendor bad_family no_nested_paging no_svm : Failure

-- The argument of `fatal_failure`, less its line feed.
unfoldable pub message : Failure → String
message no_heap_space = "No heap space."
message out_of_pages = "alloc_boot_pages"
message too_many_entries = "Too many entries in the memory map."
message no_memory_information = "Bootloader provided no memory information."
message wrong_level = "wrong level"
message not_present = "Page table entry is not present."
message not_2mb_page = "Not 2 Mbyte page size."
message no_room_for_guest = "Not enough memory to stash the guest kernel image."
message no_guest_image = "No guest operating system is specified. Check bootloader configuration."
message inconsistent_vmcb = "Consistency check failed."
message bad_format = "vsnprintf"
message unknown_vendor = "Unknown CPU vendor"
message bad_family = "init_amd"
message no_nested_paging = "Nested paging is not supported."
message no_svm = "No svm featurel"
