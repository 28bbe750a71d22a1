-- ===== src/Pre/Run/Numbered.antt =====
-- The two passes in a row, as the plug-ins are registered: the module that the first one leaves is
-- numbered by the second one.
use ia2_provsan.Base.{List, ◌≡◌}
use ia2_provsan.Base.Lists.{length}
use ia2_provsan.Post.Ir.{Function}
use ia2_provsan.Post.Number.Ids.{block_ids, ids_from}
use ia2_provsan.Post.Run.Names.{All}

-- The numbers in the hooks of a function are 0, 1, 2, ..., as a uint64_t counts.
abbrev pub IsNumbered : Function → Type 0
IsNumbered f = block_ids f.blocks ≡ ids_from 0 (length (block_ids f.blocks))

abbrev pub AllNumbered : List Function → Type 0
AllNumbered fs = All IsNumbered fs
