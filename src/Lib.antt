-- ===== src/Lib.antt =====
-- min-os: a verification of the core of the kernel and of its boot loader.
--
-- The boot loader (bootloader/MinLoaderPkg/Main.c) reads the UEFI memory map, copies the segments
-- of the kernel to their addresses, reads the volume into memory and starts the kernel. The
-- kernel sorts the memory map, marks the frames that are in use in a bitmap and sets a heap
-- aside, which newlib's malloc grows by sbrk. Tasks run in four queues, one for each level; the timer
-- interrupt moves the tick, sends messages to the tasks whose timers are due, and gives the
-- processor to the next task. A program is loaded into page maps once, and each task that runs it
-- shares its pages until it writes to them; pages on demand and files that are mapped come in by page
-- faults. The system calls open, read and map files of the FAT volume, and turn the messages of a
-- task into the events of an application, which grows its heap by pages that are mapped on demand.
--
--   Common   Boolean tests, lists, bits of machine words and integers over the native numbers.
--   Error    kernel/error.hpp.
--   Message  kernel/message.hpp.
--   Memory   kernel/memory_manager.cpp: `allocate`, `free`, `mark_allocated` and `set_memory_range`
--            are the methods of BitmapMemoryManager. Memory.Map is kernel/memory_map.hpp and
--            Memory.Setup is InitializeMemoryManager with InitializeHeap.
--   Task     kernel/task.cpp: `switch_task`, `sleep`, `wakeup`, `send_message`, `receive_message`,
--            `finish` and `wait_finish` are the methods of TaskManager; `rotate` is
--            RotateCurrentRunQueue and `change_level_running` ChangeLevelRunning.
--   Timer    kernel/timer.cpp: `tick`, `add_timer` and `on_interrupt` (LAPICTimerOnInterrupt), over
--            the scheduler of Task.
--   Fat      kernel/fat.cpp: Fat.Chains is NextCluster, ExtendCluster and AllocateClusterChain;
--            Fat.Files is Read, Write and Load of FileDescriptor and LoadFile; Fat.Names is
--            NextPathElement, NameIsEqual, SetFileName and FormatName; Fat.Directories is FindFile,
--            AllocateEntry and CreateFile.
--   Paging   kernel/paging.cpp and paging.hpp: `setup_page_maps`, `copy_page_maps` (Paging.Copies),
--            `copy_one_page`, `clean_page_maps` (Paging.Cleaning) and `handle_page_fault`
--            (Paging.Faults), over the frames of Memory. A page map is the value that its frame
--            holds, by level; Paging.Views reads the page of a number from it, and Paging.Ways
--            whether the entries above the last level let the user write. The pages of 2 MiB of the
--            kernel's half are not represented.
--            Paging.Identity is the kernel's own map.
--   Syscall  kernel/syscall.cpp: OpenFile, ReadFile, PutString and MapFile over the directories of Fat
--            and the address space of Paging.Faults; Syscall.Events is ReadEvent over the messages
--            of Task, and Syscall.Timers CreateTimer over the timers of Timer.
--   Font     kernel/font.cpp: the decoding of UTF-8 and the loop of WriteString.
--   Pci      kernel/pci.cpp: ScanAllBus with ScanBus, ScanDevice, ScanFunction and AddDevice.
--   Terminal kernel/terminal.cpp: MakeArgVector, Terminal.Pipe is PipeDescriptor, and Terminal.Loading
--            is LoadApp with LoadELF and SetupPML4 over the page maps of Paging: Terminal.Loading.Image
--            is what a program sees in its pages, and Terminal.Loading.Segments has the bytes that it
--            is to see.
--   Acpi     kernel/acpi.cpp: WaitMilliseconds.
--   Layer    kernel/layer.cpp: the stack of the layers that are shown, with `up_down`, `hide`,
--            `remove_layer` and `get_height` of LayerManager.
--   Boot     bootloader/MinLoaderPkg/Main.c: Boot.Elf is CalcLoadAddressRange and CopyLoadSegments,
--            Boot.Volume is ReadBlocksChunked and the sizes that UefiMain computes, and
--            Boot.Services is GetMemoryMap and the retry of ExitBootServices.
--   Newlib   Newlib.Kernel is kernel/newlib_support.c, Newlib.App is apps/newlib_support.c with the
--            system call DemandPages of kernel/syscall.cpp.
--
-- The state of an object is a record that each operation takes and returns. Machine integers are
-- native numbers with the wrap-around of 64 bits written out. A task's address is its id.
--
-- Loops run on fuel where they are not structural. Allocate has one round for each frame of the
-- range and one more, since each round but the last moves the start up. A tick is given any
-- number of rounds above the number of timers: every round removes a timer that is due, and the
-- task timer, set again, is not due. ReadBlocksChunked has a round for each chunk and two more.
-- The searches of the FAT have no end in the source: their fuel is the number of clusters that they
-- look at, and a walk along a chain takes one round for each cluster. Read has a round for each byte
-- and one more, and FindFile one for each path element. ScanBus has 257 rounds for the buses that lie
-- inside each other, one more than the table of devices has places.
-- WaitMilliseconds has a round for each read of the timer until the time is over, and one more.
-- The loop of SetupPageMap has 512 rounds, one for each entry, and the other loops over page maps are
-- counted.
-- The theorems about them give the result, not only its properties.
--
-- Arguments of the model, with what is documented of them as hypotheses: EDK II's CopyMem and SetMem
-- (Boot.BaseMemory), the firmware's ReadBlocks (Boot.Volume.Reading.Reads) and boot
-- services (Boot.Services.BootServices), newlib's malloc, and the system calls that the
-- applications' open, read and write pass on. The C library's toupper and isspace are any
-- functions, and PCI's configuration space is one. The page fault handler takes Load of the open
-- files, which the kinds of file implement.
--
-- Not modelled: register contexts and stacks, hardware registers, and the parts of the kernel that
-- are not named above (windows and what is drawn, the rest of the terminal, the other
-- system calls, the PCI capabilities, the tables of ACPI, USB and the input devices), and the example applications.
pub mod Acpi
pub mod Boot
pub mod Common
pub mod Error
pub mod Fat
pub mod Font
pub mod Layer
pub mod Memory
pub mod Message
pub mod Newlib
pub mod Paging
pub mod Pci
pub mod Syscall
pub mod Task
pub mod Terminal
pub mod Timer
