-- ===== src/Tests/Reports.antt =====
-- The message for an allocation that is inlined twice.
use Prim.Native.String.{◌++◌ as ◌<>◌}
use ia2_provsan.Base.{true, ◌≡◌}
use ia2_provsan.Post.Report.{
  DebugLoc, own, inlined, get_diag_message, first_position, sites, site_texts,
  get_diag_message-site_texts,
}

abbrev inlined_twice : DebugLoc
inlined_twice = inlined "alloc.rs" 7 3 (inlined "vec.rs" 40 0 (own "main.rs" 12 9))

get_diag_message-site_texts_example :
    get_diag_message inlined_twice true
    ≡ first_position inlined_twice <> site_texts (sites inlined_twice)
get_diag_message-site_texts_example = get_diag_message-site_texts inlined_twice
