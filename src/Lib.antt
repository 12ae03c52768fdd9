-- ===== src/Lib.antt =====
-- A verification library for TinyOS V2, a UEFI application with a small console and a driver for
-- Intel High Definition Audio.
--
-- The program prints through a `printf` of its own into an array on the stack (src/myprint.cpp,
-- src/main.cpp), looks for an audio device on the PCI bus (src/pci.cpp), drives it (src/hdacodec.h,
-- src/hdacodec.cpp) and runs the commands that are typed at its console (src/commands.cpp). The
-- driver and the commands print through `print`; the commands call the driver, and the console
-- (src/main.cpp) the commands. When it starts the program sets a text mode, and it can show a picture
-- (src/main.cpp); its memory comes from the firmware's pool (src/allocator.cpp).
--
-- Base and Bits: shared names, list and bit lemmas. Machine words are natural numbers with their
--   wrap-around written out, and a read or store outside memory is `none`.
-- Helpers: the `strncmp` functions of src/helpers.h.
-- Print: src/myprint.cpp. Output is the class `PutLimitedString`, Hex is `toHex` and `toHex32`,
--   Decimal is `toUDec` (its children are on the doubling of the digits and on the text), and Format
--   is `format` and `snprintf`, with `print` of src/main.cpp. Format/Render says which text a format
--   stands for, and Format/Bounds what is stored of it. Arguments are slots of 64 bits, or the
--   memory that a pointer to characters points to.
-- Hda: src/hdacodec.h and src/hdacodec.cpp. World holds the history of register accesses, stores,
--   allocations and calls of `print`; the device is a function from the history to the values that
--   reads return, a parameter of all that reads. Types are the structs and enums, Regs the register
--   table and `getReg`, Verb is `readReg`, `writeReg`, `sendVerb` and `readVerbResponse`, Amps the
--   amplifier queries, Collect is `collectWidgetInformation`, Format is `StreamFormat`, Stream the
--   pin, node and stream operations, Reset is `reset` and the constructor, Refresh is
--   `refreshWidget`, and Dump the printing of widgets. The state of the object is passed beside the
--   history where an operation reads or changes it.
-- Firmware: what the firmware answers to the calls of src/main.cpp, src/commands.cpp and
--   src/allocator.cpp, as functions of the history, and Firmware/Call the calls in that history. It
--   is a parameter of all that asks.
-- Shell: src/commands.cpp and the console of src/main.cpp. Value is `valueFromStr` and what it
--   calls, View is `findNextParam` and `getCommand`, on views given by the memory from their
--   pointer on and their size. Session is what a handler runs in: the codec object, the history,
--   and `none` for a fault of C++, with `print` run on its array. Commands has the handlers that
--   talk to the device, Commands/Modes those that ask the firmware or read memory, Commands/Count
--   is `cmdTest`, Commands/Execute the table, `cmdHelp` and `Commands::execute`. Report is the
--   report on a node that stands under `#if 0`, as programs of the driver. Console is the loop that
--   reads keys, edits a line and executes it, and Console/Edit the line editor on texts that it is
--   measured by.
-- Start: src/main.cpp. TextMode is `setHighResolutionTextMode`, Picture is `mandelbrot` and what
--   it calls, Graphics is `do_graphics`, Guid the comparison of GUIDs, Init the live part of
--   `efi_init`, and Driver its set-up of the audio driver ahead of the console: Driver/Device is
--   the search for the last audio device, Driver/Console the set-up and the first commands, and
--   Driver/Program all from the driver's constructor to the console's rounds. Acpi is src/acpi.h
--   and the list of the firmware's tables, and MemoryMap the print of its memory map. The
--   arithmetic of `float` is a parameter.
-- Pci: src/pci.cpp, with the port accesses as a history of their own; the machine is a function from
--   that history to the values that reads return. Search is on one place of the bus, Scan on the
--   loops, Found on what the search returns, and Address on the configuration address.
-- Memory: `memmove` and `memcmp` of src/allocator.cpp, on the bytes of one object, and Memory/Pool
--   its `operator new` and `operator delete`.
-- Examples: the theorems at concrete inputs.
--
-- The loops over arrays and digits are recursions on lists or on the number of rounds left. The
-- loop of `readVerbResponse` makes at most 1024 rounds, as the code counts them. The loop of
-- `reset` that waits for the device has no bound in the code: it runs on fuel, which is enough as
-- soon as the device reports within that many reads. The loop over the audio devices runs on fuel:
-- eight rounds are enough. The loop of `cmdTest` runs on fuel: as many rounds as the parameters
-- have characters, and one more, are enough. The loops over the text modes run on fuel too: as many
-- rounds as there are supported modes are enough for the one that sets a mode. The loop over
-- the memory map runs on fuel: one round more than there are descriptors is enough. The console's
-- loop is endless; it is taken for any number of rounds. The loops that only pass time are left out.
--
-- Not modelled: the code under `#if 0` of src/myprint.cpp and src/hdacodec.cpp; the
-- bindings of the firmware's interface (src/efi*.h), whose calls are parameters. The calls of
-- `print` in the driver and at the start are in the history, and are not run.
pub mod Base
pub mod Bits
pub mod Helpers
pub mod Print
pub mod Firmware
pub mod Hda
pub mod Shell
pub mod Start
pub mod Pci
pub mod Memory
pub mod Examples
