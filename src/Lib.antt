-- ===== src/Lib.antt =====
-- The verification library of risu, the tester of instructions by random sequences.
--
-- The program runs one image twice. The master stops at each illegal instruction of the image,
-- takes the machine's registers, and writes a record: a header, and the registers or a block of
-- memory. The apprentice runs the same image elsewhere, stops at the same places, reads the
-- record, and compares. They talk through a socket, packet by packet with a response byte, or
-- through a trace file, which the apprentice reads later.
--
-- Files
--   Prelude       names of the libraries, tests, lists, signed integers, bytes of objects, rows of
--                 reports, and `Outcome`, how a call ends: with a value, by exit, by abort, by an
--                 access out of bounds, or not within the bound.
--   Comms         comms.c: recv_bytes, recv_and_discard_bytes, safe_writev, send_data_pkt,
--                 recv_data_pkt, send_response_byte, on a descriptor whose single calls a list of
--                 events may shorten, interrupt or fail. Reads, Discarding, Packets, Sending: what
--                 arrives and what is sent. Closing, Bounds, Silent, Asking: the errors and the limits.
--   Endian        endianswap.h: BYTESWAP_16, BYTESWAP_32, BYTESWAP_64, BYTESWAP_SIZED.
--   Risu          risu.h and risu.c. Op: RisuOp and RisuResult. Header: trace_header_t and its
--                 byte order. Arch: the functions that an architecture provides, as a record.
--                 State: the static variables, read_buffer, write_buffer, respond. Master:
--                 send_register_info and master_sigill. Apprentice: recv_register_info,
--                 recv_and_compare_register_info and apprentice_sigill. Run: the image, master,
--                 apprentice. Lawful: what the protocol relies on in an architecture.
--                 Sound: an invariant of the static variables. Socket: the packets and
--                 answers of one record, from both ends. Trace: the
--                 proofs on trace files, from single bytes (Records) and records (Transfer, Verdict,
--                 Replay) to stops (Stops, Handlers) and whole runs (Runs).
--   Aarch64       risu_aarch64.c, risu_reginfo_aarch64.c, risu_reginfo_aarch64.h: the options, struct
--                 reginfo, how it is taken from a context and compared. Layout: the places of the
--                 registers in `extra`. Dump: the report. Vectors: the bytes that are compared and
--                 reported. Report, Sizes: what is concluded.
--   I386          risu_i386.c, risu_reginfo_i386.c, for 32 and 64 bits. Machine: the constants of the
--                 system's headers. Dump: the report. Shape: what stays zero. Report, Features:
--                 what is concluded.
--   Arm, M68k     risu_arm.c, risu_reginfo_arm.c, risu_m68k.c, risu_reginfo_m68k.c: struct reginfo,
--                 how it is taken from a context, compared and reported.
--   Ppc64         risu_ppc64.c, risu_reginfo_ppc64.c: struct reginfo, how it is taken from and put
--                 back into a context, and the masks, in the build for a Mac OS X of 32 bits. Floats:
--                 the classes of floating-point numbers. Insns, FpOpts, Rules: which instruction a
--                 word is, the options, and for each alternative of the condition in reginfo_is_eq
--                 whether it lets a difference pass. Compare: reginfo_is_eq, part by part. Dump:
--                 reginfo_dump_mismatch. Chain, Equal, Passed, Matched, Verdict, Silent, Target: the
--                 lemmas; Agreement, Strict: what is concluded. Vectors, Swap: the vector registers
--                 as Mac OS X has them, and the byte order, each of which only some builds have.
--                 Object: struct reginfo as bytes. Machine: all this as an architecture of risu.
--   S390x         risu_s390x.c, risu_reginfo_s390x.c: the same for an s390x.
--   Loongarch64   risu_loongarch64.c, risu_reginfo_loongarch64.c: the same for a LoongArch. Vectors:
--                 the words of the vector registers.
--   CommandLine   risu.c: risu_main, from what getopt_long returns to the exit status. Replayed: a run
--                 of the master and a run of the apprentice on its trace.
--   Options       risu.c: setup_options, the table of options for getopt.
--   Args          risu_main.c: argcargv, as a machine that takes one character at a time.
--   Tests         the properties at concrete inputs.
--
-- How the code is read
--   The functions of risu.c take and return the static variables as one record, `State`. The
--   memory of the tested code is part of the context that a handler is given. siglongjmp out of a
--   handler is the constructor `jumps`. The machine that runs the image is a function from the
--   context to the next signal; the handlers change the context. An object that a pointer points
--   to is the list of its bytes, and a write of more bytes than it has is an outcome.
--
-- Bounds
--   The loops of comms.c take a bound on their rounds: each round moves a byte or uses up an event,
--   so that as many rounds as there are bytes and events to come are enough. do_image takes a bound
--   on the signals that are handled. Reading and writing a trace file needs no bound. The search in
--   uc_regspace takes a bound too, but no bound is enough for a block of the size 0; and so do the
--   loops of normalize and exponent, which shift a number of 52 bits that is not zero.
--
-- Not modelled
--   How sockets and files are opened, signal handlers installed and the image loaded: risu_main
--   takes these calls as parameters. Printing. compat/getopt is another project's library. Traces
--   compressed by zlib. arch_ptr_t of 64 bits. The parts for
--   PowerPC in assembly and those for the emulator, but the byte order. What reginfo_dump prints.
pub mod Aarch64
pub mod Args
pub mod Arm
pub mod CommandLine
pub mod Comms
pub mod Endian
pub mod I386
pub mod Loongarch64
pub mod M68k
pub mod Options
pub mod Ppc64
pub mod Prelude
pub mod Risu
pub mod S390x
pub mod Tests
