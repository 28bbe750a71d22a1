-- ===== src/Post/Number/Ids.antt =====
-- The numbers of the hooks: consecutive in each function, the same in every build.
use ia2_provsan.Base.{
  ℕ, zero, suc, ◌+◌, ◌^◌, ◌<◌, ◌≡◌, refl, ◌∙◌, ap, sym, subst, String, Bool, true, false, arith,
  if◌then◌else◌, str_eq,
}
use ia2_provsan.Base.{Option, none, some, List, [], ◌∷◌, ◌++◌}
use ia2_provsan.Base.Lists.{length, get_elem?, get_elem?-set_self, get_elem?-set_ne}
use ia2_provsan.Containers.Sorted.{Sorted}
use ia2_provsan.Signals.{increment}
use ia2_provsan.Post.Profile.{FaultingSite, FaultMap, find_function}
use ia2_provsan.Post.Ir.{
  Operand, number, text, CallBase, Instruction, call, plain, BasicBlock, Function, block_name,
}
use ia2_provsan.Post.Number.{
  HookIndex, at_position, dealloc_hook_index, hook_index, Config, Tally, written_args, number_hook,
  number_insts, number_blocks, number_function, Visit, visit_called, visit_hook,
}

abbrev pub numbered_index : Option HookIndex → Option ℕ
numbered_index (some (at_position p)) = some p
numbered_index _ = none

-- The position of the number among the arguments of `allocHook` and of `reallocHook`, which follows
-- those that the hooks are declared with before it. No other function takes a number.
abbrev pub name_position : String → Option ℕ
name_position name =
    if str_eq name "allocHook" then some 2 else if str_eq name "reallocHook" then some 4 else none

abbrev pub numbered_name : Option String → Option ℕ
numbered_name none = none
numbered_name (some name) = name_position name

-- These are the positions in the pass's table.
pub numbered_index-hook_index :
    (name : String) → numbered_index (hook_index name) ≡ name_position name
unfolding hook_index
numbered_index-hook_index name = ground arith

-- Where a call keeps its number, if it is a hook that has one.
abbrev pub number_position : CallBase → Option ℕ
number_position c = numbered_name c.called

abbrev pub if_numbered {ℓ} : {A : Type ℓ} → Option ℕ → (ℕ → A) → List A → List A
if_numbered none f rest = rest
if_numbered (some p) f rest = f p ∷ rest

-- The numbers that the hooks hold, in order.
unfoldable pub local_ids : List Instruction → List (Option Operand)
local_ids [] = []
local_ids (plain k ∷ insts) = local_ids insts
local_ids (call c ∷ insts) =
    if_numbered (number_position c) (λ p. get_elem? c.args p) (local_ids insts)

unfoldable pub block_ids : List BasicBlock → List (Option Operand)
block_ids [] = []
block_ids (b ∷ blocks) = local_ids b.insts ++ block_ids blocks

-- The hooks have the argument for their number.
abbrev pub HasArgument : CallBase → Option ℕ → Type 0
HasArgument c none = Unit {0}
HasArgument c (some p) = p < length c.args

abbrev pub HasRoom : List Instruction → Type 0
HasRoom [] = Unit {0}
HasRoom (plain k ∷ insts) = HasRoom insts
HasRoom (call c ∷ insts) = HasArgument c (number_position c) × HasRoom insts

abbrev pub AllRoom : List BasicBlock → Type 0
AllRoom [] = Unit {0}
AllRoom (b ∷ blocks) = HasRoom b.insts × AllRoom blocks

-- The hooks have the three arguments that the pass writes.
abbrev pub HasSpace : CallBase → Option ℕ → Type 0
HasSpace c none = Unit {0}
HasSpace c (some p) = p + 2 < length c.args

abbrev pub HaveSpace : List Instruction → Type 0
HaveSpace [] = Unit {0}
HaveSpace (plain k ∷ insts) = HaveSpace insts
HaveSpace (call c ∷ insts) = HasSpace c (number_position c) × HaveSpace insts

abbrev pub BlocksHaveSpace : List BasicBlock → Type 0
BlocksHaveSpace [] = Unit {0}
BlocksHaveSpace (b ∷ blocks) = HaveSpace b.insts × BlocksHaveSpace blocks

HasSpace-HasArgument : (c : CallBase) (o : Option ℕ) → HasSpace c o → HasArgument c o
HasSpace-HasArgument c none h = tt
HasSpace-HasArgument c (some p) h = omega arith

HaveSpace-HasRoom : (insts : List Instruction) → HaveSpace insts → HasRoom insts
HaveSpace-HasRoom [] h = tt
HaveSpace-HasRoom (plain k ∷ insts) h = HaveSpace-HasRoom insts h
HaveSpace-HasRoom (call c ∷ insts) (h, rest) =
    (HasSpace-HasArgument c (number_position c) h, HaveSpace-HasRoom insts rest)

pub BlocksHaveSpace-AllRoom : (blocks : List BasicBlock) → BlocksHaveSpace blocks → AllRoom blocks
BlocksHaveSpace-AllRoom [] h = tt
BlocksHaveSpace-AllRoom (b ∷ blocks) (h, rest) =
    (HaveSpace-HasRoom b.insts h, BlocksHaveSpace-AllRoom blocks rest)

-- The first `n` numbers from `id` on, of a uint64_t that wraps.
unfoldable pub ids_from : ℕ → ℕ → List (Option Operand)
ids_from id zero = []
ids_from id (suc n) = some (number id) ∷ ids_from (increment id) n

advance : ℕ → ℕ → ℕ
advance id zero = id
advance id (suc n) = advance (increment id) n

ids_from-add : (id a b : ℕ) → ids_from id (a + b) ≡ ids_from id a ++ ids_from (advance id a) b
unfolding ids_from advance
ids_from-add id zero b = ap (ids_from id) (omega arith)
ids_from-add id (suc a) b =
    let e : suc a + b ≡ suc (a + b) = omega arith in
    rw e (ap (λ l. some (number id) ∷ l) (ids_from-add (increment id) a b))

pub get_elem?-written_args :
    (remove : Bool) (p id : ℕ) (bb_name func_name : String) (args : List Operand)
    → p < length args
    → get_elem? (written_args remove p id bb_name func_name args) p ≡ some (number id)
unfolding written_args
get_elem?-written_args true p id bb_name func_name args h = get_elem?-set_self args p (number id) h
get_elem?-written_args false p id bb_name func_name args h =
    get_elem?-set_ne _ (p + 2) p (text func_name) (omega arith)
    ∙ get_elem?-set_ne _ (p + 1) p (text bb_name) (omega arith)
    ∙ get_elem?-set_self args p (number id) h

-- What a visit makes of a call with the given position for a number.
abbrev Holds : Option ℕ → CallBase → ℕ → Visit CallBase → Type 0
Holds none c id r = (r.0 ≡ c) × (r.1 ≡ id)
Holds (some p) c id r =
    (r.0.called ≡ c.called) × (get_elem? r.0.args p ≡ some (number id)) × (r.1 ≡ increment id)

abbrev plus_numbered : Option ℕ → ℕ → ℕ
plus_numbered none n = n
plus_numbered (some p) n = suc n

-- The hooks that get a number.
unfoldable pub hook_count : List Instruction → ℕ
hook_count [] = 0
hook_count (plain k ∷ insts) = hook_count insts
hook_count (call c ∷ insts) = plus_numbered (number_position c) (hook_count insts)

unfoldable pub block_count : List BasicBlock → ℕ
block_count [] = 0
block_count (b ∷ blocks) = hook_count b.insts + block_count blocks

step_ids :
    (o : Option ℕ) (c : CallBase) (id n : ℕ) (r : Visit CallBase) (rest : List (Option Operand))
    → number_position c ≡ o
    → Holds o c id r
    → rest ≡ ids_from r.1 n
    → if_numbered (number_position r.0) (λ p. get_elem? r.0.args p) rest
      ≡ ids_from id (plus_numbered o n)
unfolding ids_from
step_ids none c id n r rest e h tail =
    let same : number_position r.0 ≡ none = ap number_position h.0 ∙ e in rw (same, tail, h.1)
step_ids (some p) c id n r rest e h tail =
    let same : number_position r.0 ≡ some p = ap numbered_name h.0 ∙ e in rw (same, tail, h.1, h.2)

step_next :
    (o : Option ℕ) (c : CallBase) (id n : ℕ) (r : Visit CallBase)
    → Holds o c id r
    → advance r.1 n ≡ advance id (plus_numbered o n)
unfolding advance
step_next none c id n r h = rw h.1
step_next (some p) c id n r h = rw h.2

module _ (cfg : Config) (faults : Option (Sorted FaultingSite)) (func_name bb_name : String) where
  visit_hook-Holds :
      (hi : Option HookIndex) (name : String) (c : CallBase) (id : ℕ) (t : Tally)
      → HasArgument c (numbered_index hi)
      → Holds (numbered_index hi) c id (visit_hook cfg faults func_name bb_name hi name c id t)
  unfolding number_hook
  visit_hook-Holds none name c id t h = (refl, refl)
  visit_hook-Holds (some dealloc_hook_index) name c id t h = (refl, refl)
  visit_hook-Holds (some (at_position p)) name c id t h =
      (refl, get_elem?-written_args cfg.remove_hooks p id bb_name func_name c.args h, refl)

  visit_called-Holds :
      (o : Option String) (c : CallBase) (id : ℕ) (t : Tally)
      → HasArgument c (numbered_name o)
      → Holds (numbered_name o) c id (visit_called cfg faults func_name bb_name o c id t)
  visit_called-Holds none c id t h = (refl, refl)
  visit_called-Holds (some name) c id t h =
      let r = visit_called cfg faults func_name bb_name (some name) c id t in
      let same = numbered_index-hook_index name in
      subst (λ o. Holds o c id r) same
        (visit_hook-Holds (hook_index name) name c id t (subst (HasArgument c) (sym same) h))

  number_insts-ids :
      (insts : List Instruction) (id : ℕ) (t : Tally)
      → HasRoom insts
      → let r = number_insts cfg faults func_name bb_name insts id t in
        (local_ids r.0 ≡ ids_from id (hook_count insts)) × (r.1 ≡ advance id (hook_count insts))
  unfolding number_insts local_ids hook_count
  number_insts-ids [] id t h = (unfold ids_from in refl, unfold advance in refl)
  number_insts-ids (plain k ∷ insts) id t h = number_insts-ids insts id t h
  number_insts-ids (call c ∷ insts) id t h =
      let r = visit_called cfg faults func_name bb_name c.called c id t in
      let held = visit_called-Holds c.called c id t h.0 in
      let ih = number_insts-ids insts r.1 r.2 h.1 in
      (
        step_ids (number_position c) c id (hook_count insts) r _ refl held ih.0,
        ih.1 ∙ step_next (number_position c) c id (hook_count insts) r held,
      )

module _ (cfg : Config) (faults : Option (Sorted FaultingSite)) (func_name : String) where
  pub number_blocks-ids :
      (blocks : List BasicBlock) (id : ℕ) (t : Tally)
      → AllRoom blocks
      → block_ids (number_blocks cfg faults func_name blocks id t).0
        ≡ ids_from id (block_count blocks)
  unfolding number_blocks block_ids block_count
  number_blocks-ids [] id t h = unfold ids_from in refl
  number_blocks-ids (b ∷ blocks) id t h =
      let r = number_insts cfg faults func_name (block_name b) b.insts id t in
      let first = number_insts-ids cfg faults func_name (block_name b) b.insts id t h.0 in
      rw (first.0, number_blocks-ids blocks r.1 r.2 h.1, first.1)
        (sym (ids_from-add id (hook_count b.insts) (block_count blocks)))

-- `id, id + 1, ...`, as the hooks hold them.
unfoldable pub consecutive : ℕ → ℕ → List (Option Operand)
consecutive id zero = []
consecutive id (suc n) = some (number id) ∷ consecutive (id + 1) n

ids_from-consecutive : (id n : ℕ) → id + n < 2 ^ 64 → ids_from id n ≡ consecutive id n
unfolding ids_from consecutive
ids_from-consecutive id zero h = refl
ids_from-consecutive id (suc n) h =
    let e : increment id ≡ id + 1 = omega arith in
    rw e (ap (λ l. some (number id) ∷ l) (ids_from-consecutive (id + 1) n (omega arith)))

-- In a function with fewer than 2 ^ 64 alloc and realloc hooks, each with the arguments that the
-- pass writes, `allocHook` has its number at position 2 and `reallocHook` at position 4 of the
-- arguments, and in the code that the loops leave these are 0, 1, 2, ... in reverse post-order,
-- whatever the profile, the flags and the globals were. Calls of `deallocHook` take no number.
pub number_function-consecutive :
    (cfg : Config) (fault_map : FaultMap) (f : Function) (t : Tally)
    → BlocksHaveSpace f.blocks
    → block_count f.blocks < 2 ^ 64
    → block_ids (number_function cfg fault_map f t).0.blocks ≡ consecutive 0 (block_count f.blocks)
unfolding number_function
number_function-consecutive cfg fault_map f t space few =
    number_blocks-ids cfg (find_function fault_map f.name) f.name f.blocks 0 t
      (BlocksHaveSpace-AllRoom f.blocks space)
    ∙ ids_from-consecutive 0 (block_count f.blocks) (omega arith)
