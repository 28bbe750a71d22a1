-- ===== src/Tests/Hooks.antt =====
-- A function with a call and an invoke of the allocator, a control-flow graph, and the first pass
-- over them.
use ia2_provsan.Base.{
  ℕ, ◌+◌, ◌≡◌, refl, Bool, true, false, none, some, List, [], ◌∷◌, arith, str_eq, ◌==◌, ==_iff,
}
use ia2_provsan.Base.Outcome.{ok, fails, unfinished}
use ia2_provsan.Post.Ir.{
  other, CallKind, call_inst, invoke_inst, call_br_inst, CallBase, Instruction, call, plain,
  BasicBlock, Function,
}
use ia2_provsan.Post.Number.{hook_index}
use ia2_provsan.Pre.Env.{contains}
use ia2_provsan.Pre.Hooks.{
  Targets, Counters, HookName, hook_alloc, hook_realloc, hook_dealloc, hook_name, hook_insts, Walk,
  Graph,
}
use ia2_provsan.Pre.Hooks.Behind.{hook_function as hook_function_name, IsQuiet, IsReady, Behind}
use ia2_provsan.Pre.Hooks.Loop.{hook_insts-Behind}
use ia2_provsan.Pre.Hooks.Endless.{hook_insts_endless}
use ia2_provsan.Pre.Hooks.Sound.{has_label, AllDests, DestKnown, AllGood, IsSound}
use ia2_provsan.Pre.Hooks.Placed.{Includes, IsLawful}
use ia2_provsan.Pre.Hooks.Counts.{Adds, hook_insts-Adds}

-- A new block in front, with a label that is greater than all others.
abbrev fresh_label : List BasicBlock → ℕ
fresh_label [] = 1
fresh_label (b ∷ blocks) = b.label + fresh_label blocks

abbrev new_block : Function → BasicBlock
new_block f = record {
  name = "split";
  slot = 0;
  label = fresh_label f.blocks;
  lead = [];
  insts = plain 0 ∷ [];
}

abbrev pub graph : Graph
graph = record {
  single_predecessor = λ f label. label == 2;
  split_edge =
      λ f parent dest. (fresh_label f.blocks, record f { blocks = new_block f ∷ f.blocks });
}

abbrev targets : Targets
targets = record {
  alloc_functions = some "trusted_malloc" ∷ [];
  realloc_functions = none ∷ [];
  dealloc_functions = some "trusted_free" ∷ [];
}

module _ (t : Targets) (known known' : ℕ → Bool)
    (more : (x : ℕ) → known x ≡ true → known' x ≡ true) where
  DestKnown-more : (kind : CallKind) → DestKnown known kind → DestKnown known' kind
  DestKnown-more call_inst d = tt
  DestKnown-more (invoke_inst dest) d = more dest d
  DestKnown-more call_br_inst d = tt

  AllDests-more : (insts : List Instruction) → AllDests known insts → AllDests known' insts
  AllDests-more [] a = tt
  AllDests-more (plain i ∷ insts) a = AllDests-more insts a
  AllDests-more (call c ∷ insts) (d, a) = (DestKnown-more c.kind d, AllDests-more insts a)

  AllGood-more : (blocks : List BasicBlock) → AllGood t known blocks → AllGood t known' blocks
  AllGood-more [] a = tt
  AllGood-more (b ∷ blocks) (good, a) = (
    record {
      ready = good.ready;
      filled = good.filled;
      room = good.room;
      dests = AllDests-more b.insts good.dests;
    },
    AllGood-more blocks a,
  )

graph_split-Includes :
    (f : Function) (parent dest : ℕ) → Includes f (graph.split_edge f parent dest).1
unfolding has_label
graph_split-Includes f parent dest = record {
  labels = λ label h. rw h (ground arith);
  named = refl;
  declared = refl;
}

pub graph-IsLawful : (t : Targets) → IsLawful graph t
unfolding has_label
graph-IsLawful t = record {
  split_sound = λ f parent dest sound. (
    record { ready = tt; filled = refl; room = tt; dests = tt },
    AllGood-more t (has_label f.blocks) (has_label (new_block f ∷ f.blocks))
        (graph_split-Includes f parent dest).labels f.blocks sound,
  );
  split_includes = graph_split-Includes;
  split_new = λ f parent dest.
      let own : (fresh_label f.blocks == fresh_label f.blocks) ≡ true =
        (==_iff (fresh_label f.blocks) (fresh_label f.blocks)).1 refl in
      rw own;
}

targets_quiet : (h : HookName) → hook_name targets (hook_function_name h) ≡ none
unfolding hook_name contains str_eq
targets_quiet hook_alloc = refl
targets_quiet hook_realloc = refl
targets_quiet hook_dealloc = refl

targets-IsQuiet : IsQuiet targets
targets-IsQuiet = record { quiet = targets_quiet }

abbrev malloc_call : CallBase
malloc_call = record {
  identity = 10;
  kind = call_inst;
  called = some "trusted_malloc";
  args = other 64 ∷ [];
}

abbrev malloc_invoke : CallBase
malloc_invoke = record {
  identity = 11;
  kind = invoke_inst 2;
  called = some "trusted_malloc";
  args = other 32 ∷ [];
}

abbrev entry_insts : List Instruction
entry_insts = call malloc_call ∷ plain 3 ∷ call malloc_invoke ∷ []

abbrev pub hooked_function : Function
hooked_function = record {
  name = "main";
  is_declaration = false;
  blocks =
      record { name = ""; slot = 0; label = 1; lead = []; insts = entry_insts }
      ∷ record { name = ""; slot = 1; label = 2; lead = 7 ∷ []; insts = plain 4 ∷ [] }
      ∷ [];
  unreachable = [];
}

abbrev pub no_counts : Counters
no_counts = record {
  hook_count = 0;
  alloc_hook_counter = 0;
  realloc_hook_counter = 0;
  dealloc_hook_counter = 0;
  next = 100;
}

entry-IsReady : IsReady targets entry_insts
unfolding hook_name contains str_eq
entry-IsReady = (omega arith, refl, (omega arith, tt, tt))

hook_insts-Behind_example :
    (w : Walk) × (hook_insts targets 10 entry_insts no_counts ≡ ok w)
    × Behind targets entry_insts no_counts w.0 w.1 w.2
hook_insts-Behind_example =
    hook_insts-Behind targets 10 entry_insts no_counts targets-IsQuiet entry-IsReady (omega arith)

hook_insts-Adds_example :
    (w : Walk) × (hook_insts targets 10 entry_insts no_counts ≡ ok w) × Adds w.2
hook_insts-Adds_example =
    hook_insts-Adds targets 10 entry_insts no_counts targets-IsQuiet entry-IsReady
      (unfold hook_name contains str_eq in (tt, (tt, tt))) (omega arith) (omega arith)

-- The hook is a target itself, as it is with PROVSAN_ALLOC=trusted_malloc,allocHook.
abbrev own_targets : Targets
own_targets = record {
  alloc_functions = some "trusted_malloc" ∷ some "allocHook" ∷ [];
  realloc_functions = [];
  dealloc_functions = [];
}

hook_insts_endless_example : hook_insts own_targets 1000 entry_insts no_counts ≡ fails unfinished
unfolding hook_name contains str_eq
hook_insts_endless_example =
    hook_insts_endless own_targets 1000 malloc_call (plain 3 ∷ call malloc_invoke ∷ []) no_counts
      refl refl refl (omega arith) refl

entry-IsSound : IsSound targets hooked_function
unfolding hook_name contains str_eq has_label hook_index
entry-IsSound = (
  record {
    ready = (omega arith, refl, (omega arith, tt, tt));
    filled = refl;
    room = (tt, (tt, tt));
    dests = (tt, (refl, tt));
  },
  (record { ready = tt; filled = refl; room = tt; dests = tt }, tt),
)
