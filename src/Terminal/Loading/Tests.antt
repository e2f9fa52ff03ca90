-- ===== src/Terminal/Loading/Tests.antt =====
-- LoadApp of a small program.
use min_os.Common.{◌+◌, ◌≡◌, true, none, some, [], ◌∷◌, arith}
use min_os.Memory.Allocation.{IsValid}
use min_os.Paging.{empty_map, Frames}
use min_os.Terminal.Loading.{Program, et_exec, app_begin, AppLoad, load_app}
use min_os.Terminal.Loading.Segments.{AreSegments}
use min_os.Terminal.Loading.Sharing.{IsLoaded, load_app-IsLoaded}

-- A program with one segment of ten bytes, of which the file has four, and a note.
abbrev program : Program
program = record {
  is_elf = true;
  type = et_exec;
  entry = app_begin + 0x1000;
  headers =
      record { type = 1; offset = 64; vaddr = app_begin + 0x1000; filesz = 4; memsz = 10 }
      ∷ record { type = 4; offset = 0; vaddr = 0; filesz = 8; memsz = 8 }
      ∷ [];
  bytes = λ i. 7;
}

program-AreSegments : AreSegments program.headers
program-AreSegments =
    (λ h. record { low = omega arith; high = omega arith; bytes = omega arith }, (λ h. cc, tt))

abbrev frames : Frames
frames = record {
  manager = record { alloc_map = λ i. 0; range_begin = 1; range_end = 100 };
  contents = λ frame i. 0;
}

frames-IsValid : IsValid frames.manager
frames-IsValid = record { words = λ i. omega arith; ordered = omega arith; small = omega arith }

load_app-IsLoaded_example :
    (a : AppLoad) × (load_app none program (empty_map 4) frames ≡ some a)
    × IsLoaded none program (empty_map 4) a
load_app-IsLoaded_example =
    load_app-IsLoaded none program (empty_map 4) frames program-AreSegments frames-IsValid
