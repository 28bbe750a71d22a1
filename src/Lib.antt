-- ===== src/Lib.antt =====
-- ProvSan finds the allocation sites whose memory crosses a compartment boundary. Code compiled
-- with its passes calls a hook after each allocation; the runtime keeps the live blocks with their
-- sites, and when an access violates a protection key, its signal handler looks up the block,
-- marks the site and lets the one instruction through. At exit the marked sites are written to a
-- profile, and the Post pass reads it, finds the marked allocations in the code by their function
-- and number, reports them, and lets them call the untrusted allocator.
--
-- The parts and the files that model them:
--   Site       class AllocSite and its std::hash (Runtime/alloc_site_handler.h)
--   Handler    class AllocSiteHandler: `search_map` is getAllocSite, `add_fault_alloc` addFaultAlloc,
--              `update_realloc_chain` updateReallocChain, `get_and_remove` getAndRemove
--              (Runtime/alloc_site_handler.h). Handler/Blocks has the invariant of the allocation
--              map, Handler/Search and Handler/Entries the lookup, Handler/Faults the fault set,
--              Handler/Pending the pending keys, Handler/Threads the steps of several threads
--   Hooks      getOrInit, allocHook, reallocHook, deallocHook (Runtime/alloc_site_handler.cpp). Hooks/Heap
--              states what a correct allocator does as a step relation, over the owner of each
--              address, Hooks/Reallocs follows a site through a realloc to a fault, and Hooks/Race
--              has the hooks of two threads in either order
--   Pkru       pkey_get, pkey_set, pkru_xstate_offset (Runtime/provsan_utils.cpp). Pkru/Slots sees
--              the register as sixteen fields
--   Signals    the constructor and provsan_SEGV_fault_handler (Runtime/provsan_init.cpp)
--   Fault      the SIGSEGV and SIGTRAP handlers (Runtime/provsan_fault_handler.cpp). Fault/Step has
--              one violation with the trap after it, Fault/History histories of hooks and violations
--              as a relation of events with what they mark, and Fault/Session the code over them
--   Pre        the pass that puts the hooks in the code (Passes/DynUntrustedAllocPre/
--              DynUntrustedAllocPre.cpp): Pre/Env is str_to_vec, populateFromEnv and
--              GetTargetFunctionSet, Pre/Hooks getHookInst and hookFunctions, Pre/Run the pass.
--              `hook_insts` is the loop over a block, and Pre/Hooks/Behind says by a relation
--              what it does; Pre/Hooks/Sound has the invariant of a function's blocks, and
--              Pre/Run/Numbered the two passes in a row
--   Post       the pass that numbers the hooks (Passes/DynUntrustedAllocPost/
--              DynUntrustedAllocPost.cpp and .h): the profile reader (Post/Profile, Post/FaultMap),
--              assignLocalIDs (Post/Number), patchInstruction (Post/Patch), removeHooks and
--              removeFunctionUsers (Post/Removal), getDiagMessage (Post/Report), the constructor
--              and run (Post/Run). A hook without the arguments that are set, and a reported
--              call without a debug location, end the pass: the loops note the first such
--              failure, and run fails with it; Post/Run/Ended says when there is none. Post/Ir
--              is LLVM's code as both passes see it
--   Formatter  the profile and the statistics at exit (Runtime/provsan_formatter.cpp): `next_name` is
--              the loop of makeUniqueFilename, `json_items` that of writeJSON; Formatter/Fields has the
--              text of an array of JSON objects, for which the parser is asked to read it
--   RoundTrip  the parts together: from the fault set of the runtime to the fault map of the pass,
--              RoundTrip/Reports to the calls that are reported, RoundTrip/Rebuild to the code that
--              the build with the profile leaves; RoundTrip/Profiling has what the hooks of the build
--              for profiling pass to the runtime, and RoundTrip/Cycle follows a call from that build
--              through a history of its program to the fault set that makes it faulty
--   PassStats  the statistics' files of both passes (printStats)
--   Containers std::map and the unordered containers of the C++ library
--   Base       shared names, tests, lists, integers, outcomes and the laws of bit operations
--   Tests      the theorems at concrete inputs
--
-- Addresses, registers and counters are natural numbers with their wrap-around written out; a
-- value of a signed type is the integer that it stands for. A failed assertion and a dereference
-- of `end()` or of a null pointer end the process and are values of `Outcome`. The order in which an
-- unordered container is iterated is not specified by C++: a fault set is a list in any order. Every
-- method of the handler holds the mutex of the member that it changes, so it is one step on the
-- state. addFaultAlloc looks up under one mutex and marks under two others: it is one step in the
-- handlers of Fault, as where no other thread runs in between, and two in Handler/Threads.
--
-- Bounds: a chain of old signal actions is followed to a depth that is an argument; one call
-- suffices unless the handler is its own predecessor. The 128 attempts at a file name are counted
-- down as in the code. The loops of str_to_vec and of hookFunctions over a block need not end by
-- their form, so they have rounds, and `unfinished` where these are used up: for a text, one more
-- than its characters suffice, as each token has one, and for a block more than twice its
-- instructions, as each is followed by one hook at most unless hooks are hooked themselves;
-- `populate_from_env` and `hook_found` give so many. All other functions recur on their data.
--
-- Parameters: the library's hashes and random generators, `cpuid`, LLVM's JSON parser and values,
-- the file system and LLVM's temporary files, the debug location of each call, the environment, `std::stoi`, and in the Pre pass
-- getSinglePredecessor and SplitEdge with their laws (`IsLawful`): the blocks stay, the new block
-- is there, and the code stays sound. LLVM's functions are given as their reachable blocks in
-- reverse post-order, with the unreachable ones beside them, and a call is known by its identity,
-- which stands for its address. A hook's function has no other uses than calls.
--
-- Not modelled: messages on stderr other than the text for a faulting allocation; the attributes
-- and types of the hooks' declarations, linkages and debug information; the pass registration,
-- and the tests of the repository. `run` of a pass leaves out printStats, which changes files
-- only: it stands beside it, on the counts that `run` returns. The violations of the histories in
-- Fault/History are those of the main thread; what other threads do in between is in
-- Handler/Threads, one locked step at a time.
pub mod Base
pub mod PassStats
pub mod Pkru
pub mod Containers
pub mod Site
pub mod Signals
pub mod Handler
pub mod Hooks
pub mod Fault
pub mod Formatter
pub mod Post
pub mod Pre
pub mod RoundTrip
pub mod Tests
