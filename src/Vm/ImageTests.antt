-- ===== src/Vm/ImageTests.antt =====
-- The sample image in the frame 1000.
use tvmm.Base.{
  ℕ, ◌+◌, ◌*◌, ◌/◌, ◌%◌, ◌^◌, ◌≡◌, refl, ap, ◌∙◌, arith, true, false, ◌<◌, ◌==◌, if◌then◌else◌,
}
use tvmm.Memory.{Mem, byte, load_bytes, load64}
use tvmm.Kernel.{State}
use tvmm.Kernel.Laws.{Ends}
use tvmm.Alloc.{allocated_in_map, word, get_alloc_bitmap_idx, get_alloc_bitmap_offset}
use tvmm.Elf.Moved.{IsLoadable-moved}
use tvmm.Elf.Sample
use tvmm.Elf.Sample.{place}
use tvmm.Paging.Tables.{IsMapped, load_bytes-zeros}
use tvmm.Paging.Booted.{no_tables}
use tvmm.Paging.Aside.{IsIdle, frame_of}
use tvmm.Base.Bits.{testbit, testbit-zero}
use tvmm.Page.{pfn_up_2mb}
use tvmm.Kernel.Success.{Succeeds}
use tvmm.Alloc.Supply.{HasFree}
use tvmm.Alloc.Bitmap.{allocated-testbit}
use tvmm.Vm.Returned.{vm_create-Succeeds}
use tvmm.Vm.{vm_create}
use tvmm.Vm.Runnable.{IsRunnable, vm_create-IsRunnable}

abbrev memory : Mem
memory a = if a == 0x107D then 1 else Sample.memory a

abbrev state : State
state = record { mem = memory; nalloc = record { alloc_bitmap = 0x1000; max_page = 4096 } }

same : (i : ℕ) → i < 128 → byte memory (place + i) ≡ byte Sample.memory (place + i)
same i lt = let other : (place + i == 0x107D) ≡ false = ground arith in rw other refl

frame_marked : allocated_in_map state.nalloc memory 1000 ≡ true
unfolding allocated_in_map word load64 load_bytes get_alloc_bitmap_idx get_alloc_bitmap_offset
frame_marked = refl

image-IsIdle : IsIdle state.nalloc no_tables state place (place + 128)
image-IsIdle x lo hi =
    let at : frame_of x ≡ 1000 = omega arith in
    (
      omega arith,
      omega arith,
      (refl, λ below. ap (allocated_in_map state.nalloc memory) at ∙ frame_marked),
    )

state-IsMapped : IsMapped state.nalloc no_tables state
state-IsMapped = record {
  same = refl;
  tables = λ f some. absurd (omega arith);
  tables_above = λ f some. absurd (omega arith);
  free_above = λ f below free. omega arith;
  entries = λ f i high lt present. absurd (omega arith);
  parents = λ f i f' i' b leads. absurd (omega (arith, leads.0));
}

vm_create-IsRunnable_example :
    Ends (IsRunnable memory place (2 ^ 22)) (vm_create place 128 (2 ^ 22) state)
vm_create-IsRunnable_example =
    vm_create-IsRunnable state.nalloc (omega arith) no_tables state place 128 (2 ^ 22) (omega arith)
      (omega arith)
      (IsLoadable-moved Sample.memory memory place place 128 same (2 ^ 22 / 4096 * 4096)
        Sample.memory-IsLoadable (omega arith))
      image-IsIdle state-IsMapped

frames_free : HasFree state.nalloc 1024 2600 state
unfolding word load64
frames_free p lo hi =
    let zeros : word state.nalloc.alloc_bitmap memory (p / 64) ≡ 0 =
      load_bytes-zeros 8 memory (0x1000 + 8 * (p / 64)) (λ x from to. ground arith) in
    allocated-testbit state.nalloc memory p
    ∙ ap (λ w. testbit w (p % 64)) zeros
    ∙ testbit-zero (p % 64)

vm_create-Succeeds_example :
    Succeeds (IsRunnable memory place (2 ^ 22)) (vm_create place 128 (2 ^ 22) state)
unfolding pfn_up_2mb
vm_create-Succeeds_example =
    vm_create-Succeeds state.nalloc (omega arith) no_tables state place 128 (2 ^ 22) (omega arith)
      (omega arith)
      (IsLoadable-moved Sample.memory memory place place 128 same (2 ^ 22 / 4096 * 4096)
        Sample.memory-IsLoadable (omega arith))
      image-IsIdle state-IsMapped 1024 1536 2600 (omega arith) refl (omega arith) (omega arith)
      frames_free
