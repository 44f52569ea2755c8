-- ===== src/Lib.antt =====
-- Verification of parts of libefivar (src/ of the repository): the library that reads and writes
-- UEFI variables, exports them to files, parses device paths, load options, signature databases and
-- GUID partition tables.
--
-- The parts build on each other: GUIDs (src/guid.h) and UCS-2 strings (src/ucs2.h) occur in every
-- structure, and the CRC (src/crc32.c) closes an exported variable and a GPT header (src/gpt.c). A
-- buffer of memory is a list of bytes (numbers below 256), a machine integer a native number with
-- its wrap-around written out, and a call that reports by errno returns an `Outcome`
-- (Common/Outcome.antt), in which `fault` stands for an access outside of the buffer.
--
--   Common.antt and Common/: Boolean tests, lists under native lengths, bytes, outcomes, and the
--     laws of `&`, `|` and `^` (Common/Bits/) that the library of numbers does not have.
--
--   Crc32.antt: `crc32` of src/crc32.c with its table, `efi_crc32` of src/crc32.h. Crc32/Step.antt
--     has the bit-by-bit step that the table stands for, Crc32/Laws.antt the function as a whole.
--
--   Guid.antt: `efi_guid_t`, `text_to_guid`, `efi_guid_to_str`, `efi_guid_cmp`, `efi_guid_is_zero`
--     of src/guid.h and src/guid.c. Guid/Text.antt is about the text form, Guid/Order.antt about
--     the order, Guid/Layout.antt about the 16 bytes in memory. libc's `%x` and `strtoul` on the
--     digits that the code has checked are written out.
--
--   Ucs2.antt: all functions of src/ucs2.h. Ucs2/Encode.antt, Ucs2/Lengths.antt and
--     Ucs2/RoundTrip.antt are about the bytes of a unit, the length functions and the conversions,
--     Ucs2/Ascii.antt about ASCII strings.
--
--   Variable.antt: `struct efi_variable` of src/lib.h and its accessors of src/export.c.
--     Variable/Export.antt has `efi_variable_export` and `efi_variable_export_dmpstore` as
--     sequences of writes to the caller's buffer, Variable/Import.antt `efi_variable_import` and
--     its two formats. Variable/Image.antt and Variable/Image/ describe the bytes that an export
--     leaves, Variable/RoundTrip.antt and Variable/RoundTrip/ put import behind export.
--
--   DevicePath.antt: the walk over device path nodes of src/include/efivar/efivar-dp.h
--     (`efidp_node_size`, `efidp_next_node`, `efidp_next_instance`, `efidp_get_next_end`,
--     `efidp_size`) and `efidp_duplicate_path`, `efidp_append_path`, `efidp_append_node` of
--     src/dp.c. DevicePath/Valid.antt has `efidp_is_valid`, `efidp_is_multiinstance` and
--     `efidp_instance_size`. DevicePath/Layout.antt has paths as data and their bytes;
--     DevicePath/Size.antt, DevicePath/Append.antt, DevicePath/Instances.antt and
--     DevicePath/Walk.antt are about the functions on them.
--
--   LoadOption.antt: `efi_loadopt_create`, `efi_loadopt_attrs` and `efi_loadopt_pathlen` of
--     src/loadopt.c, which use the device path checks and the string conversions.
--     LoadOption/Create.antt is about the bytes that a creation leaves. LoadOption/Access.antt has
--     the other accessors, where a pointer is an offset into the option, and
--     LoadOption/ReadBack.antt is about what they read from those bytes.
--
--   Append.antt: `generic_append_variable` of src/generics.h, which reads, deletes and writes a
--     variable through the operations of a `BackEnd`, a record with a state. Append/Appended.antt
--     is about what an append leaves.
--
--   X509.antt: `get_asn1_seq_size` of src/x509.h. X509/Size.antt bounds the sizes that it returns.
--
-- The loops over device paths take a number of turns, and a loop that is still running after them
-- returns `none`; the theorems say how many turns are enough, or that no number is.
--
--   Gpt.antt: `is_gpt_valid` of src/gpt.c with `validate_nptes`, `check_lba` and the reads behind
--     it, on a `Device` that answers for lseek, read, fstat and the ioctls. Gpt/Disk.antt has
--     `is_pmbr_valid`, `compare_gpts`, `find_valid_gpt` and `gpt_disk_get_partition_info`;
--     Gpt/Bounds.antt is about the space for the entries, Gpt/Reads.antt about what is read,
--     Gpt/Checks.antt about the tests of a header, Gpt/Valid.antt about the tables accepted,
--     Gpt/Find.antt about the choice of a table and the entry read.
--
--   EslIter.antt: the iterator over the signature lists of a buffer and the one over their entries,
--     src/esl-iter.c, with and without the correction of sizes. EslIter/Layout.antt has lists as
--     data and their bytes, EslIter/Places.antt the places of their fields, EslIter/Found.antt what
--     a caller finds; EslIter/Steps.antt and EslIter/Walk.antt are about a walk over well-formed
--     lists, EslIter/Bounds.antt about any buffer, EslIter/Empty.antt about a list with no entries.
--     A pointer into the buffer is an offset.
--
--   DeviceNode.antt: the functions of src/dp.c, src/dp-hw.c, src/dp-acpi.c, src/dp-media.c and
--     src/dp-message.c that make a node of a device path in a buffer. DeviceNode/Fields.antt is
--     about the assignments to the fields, DeviceNode/Nodes.antt has the nodes as data, and what
--     each maker leaves; there a made node is appended to a path.
--
--   SecDb.antt: signature databases, src/secdb.h and src/secdb.c, whose linked lists are lists
--     here: the table of types, their sizes, the flags. SecDb/Compare.antt has the comparisons for
--     the sorts, SecDb/Edit.antt `efi_secdb_add_entry`, `efi_secdb_del_entry` and the search for a
--     list, SecDb/Visit.antt `efi_secdb_visit_entries` and `efi_secdb_realize`, SecDb/Parse.antt
--     `efi_secdb_parse`, which takes entries from the iterator. SecDb/Valid.antt says when a list
--     is well formed; SecDb/Places.antt, SecDb/Add.antt and SecDb/Added.antt are about an addition,
--     SecDb/Realize.antt, SecDb/Realized.antt and SecDb/Written.antt about what is written,
--     SecDb/Space.antt about its space, SecDb/Chain.antt and SecDb/RoundTrip.antt about parsing.
--     The size of a page, `qsort_r` and the GUIDs of the types, which the build generates, are
--     parameters, and the loop of `efi_secdb_parse` takes a number of turns.
--
--   PathHelpers.antt: the functions of src/path-helpers.c and the macros that use them.
--     PathHelpers/Text.antt has a path as parts and what one turn of the loops does,
--     PathHelpers/Spans.antt and PathHelpers/Split.antt the spans that are counted and written,
--     PathHelpers/Segments.antt the segment returned. Both loops take a number of turns.
--
--   Dispatch.antt: the calls of src/lib.c, which go to the operations of a table, and
--     `libefivar_init`, which chooses the table. Dispatch/Chosen.antt is about the choice, and
--     about an append through `generic_append_variable` and these calls.
--
--   VariableNames.antt: `generic_get_next_variable_name` of src/generics.h, whose static `dir` is
--     part of its state, and `list_all_variables` of src/efivar.c, which calls it for a number of
--     turns. VariableNames/Listed.antt is about what is printed.
--
-- Common/Memory.antt has the reads and writes of a buffer: outside of it they fault.
--
-- Every other loop is a structural recursion on the list that the C code walks, so no fuel is
-- needed. The host is little-endian and 64-bit. Allocation is taken to succeed, and debug and
-- error-log calls are left out: they change no result.
--
-- Not modelled: `efidp_make_file` and `efidp_make_acpi_hid_ex`, the formatters and parsers of
-- device path nodes, `efi_loadopt_args_from_file`, the `errno` that `find_valid_gpt` leaves, the
-- log of errors and the conversions of time, which nothing above depends on; and the rest of the
-- command-line programs, the probing of sysfs, the access to efivarfs files and to disks, and the
-- signature checks that OpenSSL does, which are calls of the system or of libraries.
pub mod Append
pub mod Common
pub mod Crc32
pub mod DeviceNode
pub mod DevicePath
pub mod Dispatch
pub mod EslIter
pub mod Gpt
pub mod Guid
pub mod LoadOption
pub mod PathHelpers
pub mod SecDb
pub mod Ucs2
pub mod Variable
pub mod VariableNames
pub mod X509
