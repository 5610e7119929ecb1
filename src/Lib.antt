-- ===== src/Lib.antt =====
-- A verification library for ivm, a virtual machine for dynamic languages with the front ends ias
-- and ink. It models the parts that every program of the machine runs on: the hash functions, the
-- bump allocator, UTF-8, the hash table from pointers to pointers, lists of pointers, ranges, the
-- pool of constant strings, the tables of slots that hold the fields of an object, the variables
-- of a context and overloaded operators, the chains of contexts, the operand stack of a coroutine,
-- pools of elements, list objects, escaped text, the tokenizer, executables with the cache file
-- that stores them, and the optimizer that works on them.
--
-- Parts and files. Paths are from the repository's root.
-- Base and its children: Boolean tests, lists over native numbers, bits.
-- Hash: std/hash.h, the string and pointer hashes on 64-bit words.
-- Probe: what the hash tables share, the linear probe for an empty cell or an equal key that wraps
-- around once, and the refilling of a larger table. Its children are about where a probe stops
-- (Scan), the layout in which it finds every key (Layout, Table), free cells (Count) and refilling
-- (Refill, Expand).
-- PtrHash: std/hash.h and std/hash.c, ivm_pthash_t. find_cell is _ivm_pthash_find_c, expand
-- _ivm_pthash_expand with _ivm_pthash_rehash, insert, insert_empty and remove the functions of
-- these names. The children Gap, Shift, Measure, Clear and Remove follow the loop of
-- ivm_pthash_remove that closes a gap; Home has the invariant and the map that a table stands for.
-- Heap: std/heap.h and std/heap.c, ivm_heap_t. Blocks has the invariant and what is live, Store
-- and Alloc are about allocation, Cycle about creation, reset and compaction.
-- Enc: std/enc.c, UTF-8. Bytes computes bytes and steps, Digits has the reference decoder, Encode
-- and Strlen are about the encoder and the length.
-- PtrList: std/list.h and std/list.c, ivm_ptlist_t, with its memory: push, push_front, pop,
-- insert, find, index_of and reverse are the functions of these names. Memory has the invariant
-- and the elements, Ends, Insert, Search and Reverse are about the operations.
-- Range: vm/range.c. range_new and iter_next are ivm_range_new and ivm_range_iter_next; Ints has
-- integers, Collect the numbers that a range runs through, Counted how many there are, Made
-- ivm_range_new.
-- Strings: the strings of std/string.h and their comparison.
-- StringPool: std/string.c, ivm_string_pool_t. The macro HASH with CHECK is claim_loop, rebuild
-- the loops over the list of strings; Rebuild has the invariant, Claim and Register the
-- registration.
-- Slot: vm/slot.h, vm/slot.c and vm/inline/slot.h, ivm_slot_table_t. The macros GET_SLOT, SET_SLOT
-- and SET_EMPTY_SLOT are find_slot, get_slot, set_body and set_empty_slot (Slot/Setters), with
-- their caches in Slot/Caching; copies are in Slot/Sharing, operators in Slot/Oops. The children
-- Table, Grow, Barrier, Set, Empty, Merge, Coherent, Traced and Cached are about the operations.
-- Context: vm/context.h and vm/inline/context.h, ivm_context_t. search and search_and_set are
-- ivm_context_search and ivm_context_searchAndSetExistSlot, which Search is about;
-- context_set_slot is ivm_context_setSlot, which Declare is about.
-- VmStack: vm/vmstack.c and vm/vmstack.h, ivm_vmstack_t. init, inc, inc_c and ensure are the
-- functions of these names, with the frames and the runtime that point into the stack; Relocate is
-- about growth.
-- Pool: std/pool.h and std/pool.c, ivm_ptpool_t, over Heap and PtrList; Hold has its invariant.
-- ListObj: vm/listobj.h, vm/listobj.c and vm/inline/listobj.h, ivm_list_object_t; list_get,
-- list_set, list_push and list_step are ivm_list_object_get and so on. Index is about indices,
-- Write, Push and Step about these operations.
-- Escape: util/parser.c, ivm_parser_parseStr_c, which uses Enc. Bounds is about the buffer,
-- RoundTrip about the meaning of escapes.
-- Lexer: util/parser.h, the loop of _ivm_parser_tokenizer as a step on its variables; take_entry
-- is the body of a transition. Advance is about a transition, Within about the tokens of a whole
-- run.
-- Exec: vm/exec.h and vm/exec.c, ivm_exec_t and ivm_param_list_t; exec_new, add_instr, set_param
-- and exec_empty are ivm_exec_new, ivm_exec_addInstr_c, ivm_param_list_setParam and
-- ivm_exec_empty.
-- Serial: util/serial.c. The writers and readers of a cache file are write_unit (execUnitToFile),
-- read_unit (execUnitFromFile) and those of its parts; Stream has the stream, Data the structs,
-- Format, Truncated and Inside are about the format. Program has serialize_exec and
-- unserialize_exec, which Restored is about, and serialize_execs and unserialize_execs for lists
-- of executables, which Entered (the list of pools) and Units are about: the pools are shared, so
-- that they stand in a store by their addresses, and unserializing reads the strings of the pools.
-- They use StringPool and Exec.
-- Opcode: the numbers of the opcodes of vm/opcode.def.h, and ivm_opcode_table_isJump of
-- vm/opcode.c.
-- Optimizer: util/opt.c. convert is ivm_opt_il_convertFromExec, generate ivm_opt_il_generateExec;
-- the passes and ivm_opt_optExec are in Reduce. Link and Convert are about the conversion, Place,
-- Rewrite and Generate about the generation, RoundTrip about both; Control has what jumps do in
-- vm/opcode.def.h; Chase, Retarget and Invert are about the pass over jumps, Hang about its loop,
-- Peephole about the other two passes.
-- Tests: the theorems at concrete inputs.
--
-- The model. A table is the list of its cells, its size the length of the list. A pointer is a
-- number and NULL is 0 or none; a name is the list of its bytes, since names compare by contents.
-- An index stands for a pointer into a table. Memory allocation succeeds, but in heaps, pools and
-- list objects, which may be refused more, and in operand stacks and executables, where a number
-- of cells that wraps around is refused. A fatal error and fuel that ran out are none. The fuel of
-- the setters and of the string pool is 2, since a table that has just grown has a free cell; that
-- of the loop of ivm_pthash_remove is the square of the size and one, since each round moves a
-- cell closer to its home cell; that of the loops over lists and texts is their length and one.
-- The loop of the optimizer along jumps gets the number of instructions, with which it ends if it
-- ends at all. A list of instructions is the memory, a pointer to one is its index, and a read
-- outside is none. The loop of list_step gets the size of the list and one, since a round adds an
-- element. The loop over an escaped text gets the length of the text, since a round takes at least
-- a character. A stream is the list of its bytes; numbers are stored with the lowest byte first,
-- pointers and sizes have eight bytes. The size of a heap request, of a list object, of an operand
-- stack and of the memory of an executable, and the numbers of a range that is made, wrap around
-- or overflow as they do in the code; other sizes and ids do not.
--
-- Not modelled: the release of memory, number conversion, input and output, the collector, the
-- execution loop, the grammars and code generators of the front ends, and the counts of elements
-- that the writers of a cache file answer.
pub mod Base
pub mod Hash
pub mod Heap
pub mod Enc
pub mod Range
pub mod Strings
pub mod Probe
pub mod PtrHash
pub mod PtrList
pub mod StringPool
pub mod Slot
pub mod Context
pub mod VmStack
pub mod Pool
pub mod ListObj
pub mod Exec
pub mod Serial
pub mod Opcode
pub mod Optimizer
pub mod Escape
pub mod Lexer
pub mod Tests
