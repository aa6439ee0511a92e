-- ===== src/Lib.antt =====
-- The Python tools of the koti home computer, and the parts of its firmware, test bench and test
-- programs that they meet. Names of functions are the source's; paths are from the repository's root.
--
-- Parts and how they interact:
--   Base            Python's built-in types as the tools use them: lists, text (a list of code points),
--                   integers, bits, bytes, number formats and their readers, and exceptions as `none`.
--                   It models no file. Text and regular expressions are taken on ASCII.
--   Rvdis           tools/rvdis.py, the disassembler. `locals` cuts the word into its fields, one file
--                   per group of opcodes makes an instruction of it (Flow, Arithmetic, Memory, System),
--                   `decode` joins them, `disasm` and `walk` are its clients. An exception, such as a
--                   KeyError of a table, is `none`.
--   Asm             the instruction builders of test/test_cpu.py and test/test_rvdis.py, the inverse of
--                   `decode`.
--   Ktrace          tools/ktrace.py, which reads the trace that test/tb_boot.v prints: Symbols is the
--                   System.map, Bisect the standard library's binary search, Resolver its client, Image
--                   the kernel by address, Straddle and Audit the scan for jumps to the end of a page,
--                   Lines and Parsed the two forms of trace line. It calls Rvdis.
--   Card            tools/sdkernel.py, which puts a kernel on a microSD card, and sw/sbi/sdboot.c, which
--                   loads it. Payload is the header and the padding, Write, Table, Inspect and Fake the
--                   commands, Firmware the loader. The device is the interface `Device`: its operations
--                   are the operating system's, and the laws IsReadable and IsWritable say what a
--                   theorem relies on. The state of the device goes from call to call.
--   Spi             test/spimem.py, the bench's flash and PSRAM. State is the object, Edges one function per
--                   phase of `on_rise` and `on_fall`. Drive is a controller on the other side of the
--                   bus, Serial, Read and Quad its transactions; the bench has its controller in
--                   SystemVerilog.
--   Screen          tools/screenshot.py: Layout is `lay_out`, Window and Page compare it with a page that
--                   does not scroll. The font and the pixels are not modelled.
--   Config          sw/linux/check_config.py: Table is `REQUIRED`, Parse is `parse`, Verdict the rest of
--                   `main`, Meets what it is to say of the lines of the file.
--   Esp             sw/linux/fake_esp.py, which stands in for the ESP32 modem. Pages has the constants, Mock
--                   and Socket the two classes, with the sockets in a store; Program is what a line does to
--                   the objects of its namespace, Damage the faults of the link, Loop the loop of `main`,
--                   one step for each look at the clock and the device file. Python's `exec` is a parameter.
--                   Kept turns what each step keeps into an invariant; Registered, Served, Split and
--                   Transaction follow the sockets, Counted and Counts the counters, Resync a Ctrl-C. Fetch
--                   is the program `c1` of sw/linux/rootfs-overlay/usr/bin/koti-net, a client of the far
--                   end; Calls, Collected, Fetched and Page follow it through.
--   Cpio            `read_cpio` of sw/linux/check_initramfs.py: Archive is the reader on Python's signed integers,
--                   Digits, Slices and Written follow a writer of the format through it, Ends its loop. The
--                   writer is the kernel's documented format; no file of the repository has one.
--   Image           the rest of sw/linux/check_initramfs.py: Problem is the list `bad` and the host's files, one
--                   function per section of `main` in Elf, Members, Scripts and Sends, which Verdict joins in
--                   the order of `main`; describe_flags and elf_facts are those of sw/linux/check_rootfs.py.
--                   SHA-256 and `sh -n` are fields of the host. Bootable and Passes are about the whole check,
--                   Facts about the binaries, Quoted about the arguments of `send`.
--   Rootfs          sw/linux/check_rootfs.py: Table is `REQUIRED`, Parse is `parse_config` and the arguments,
--                   Verdict the rest of `main` over a disk. It takes the ELF reader and the reasons against a
--                   binary from Image, and from Config the dictionary of a configuration.
--   Pins            fpga/ulx3s/check_pins.py: Table is `EXPECTED`, Scan the expressions for a constraint file, Ports
--                   `module_ports`, Verdict the checks of `main`, Agreed what each of them shows. Warnings are left
--                   out, and the test of a frequency, in Python's floating point, is a parameter.
--   Memfile         fpga/ulx3s/mkflashhex.py and test/mkhex.py: Files is what they write, Read what a
--                   simulator reads from it.
--
-- Loops and fuel: `walk_loop` and `audit_loop` take four bytes in each round and start with more fuel
-- than there are bytes; `read_loop` of Cpio has a round for each byte and one more, and takes 110 bytes in a round
-- that goes on; `bisect_loop` shortens its range in each round and starts with more fuel than
-- the list is long; `digits_loop` divides its number and starts with more fuel than the number. That
-- this is enough is part of the theorems. The read loop `collect` takes a byte at least in each round and
-- is given more fuel than the page is long; a line of the far end is a finite tree of calls. All other functions recurse on their data.
--
-- Not modelled: command lines and printed reports, the files and devices themselves, the SystemVerilog
-- of the computer, the C programs but for the card loader, the simulator programs of the test bench,
-- the build and release scripts, and the vendored cores.
mod Base
pub mod Rvdis
pub mod Asm
pub mod Ktrace
pub mod Card
pub mod Spi
pub mod Screen
pub mod Config
pub mod Memfile
pub mod Esp
pub mod Cpio
pub mod Image
pub mod Rootfs
pub mod Pins
