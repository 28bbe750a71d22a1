-- ===== src/PassStats.antt =====
-- The files of `printStats` in DynUntrustedAllocPre.cpp and DynUntrustedAllocPost.cpp, which differ in
-- the name and the text. LLVM's file system calls are parameters; messages are not modelled.
pub mod Kept
use ia2_provsan.Base.{String, Bool, Option, none, some, if◌then◌else◌}

-- `is_directory` and `create_directory`, whose error is not read; `TempFile::create` with a model of
-- a name; the stream on its descriptor, up to `flush`; and `keep`, with false for an error.
pub record TempFiles : Type 1 where
  pub World : Type 0
  pub TempFile : Type 0
  pub is_directory : World → String → Bool
  pub create_directory : World → String → World
  pub create : World → String → Option (TempFile × World)
  pub write : World → TempFile → String → World
  pub keep : World → TempFile → Bool × World

abbrev pub test_directory : String
test_directory = "TestResults"

module _ (host : TempFiles) where
  abbrev pub ensure_directory : host.World → host.World
  ensure_directory w =
      if host.is_directory w test_directory then w else host.create_directory w test_directory

  -- Both outcomes of `keep` return.
  abbrev pub fill : host.World → Option (host.TempFile × host.World) → String → host.World
  fill w none text = w
  fill w (some (file, w')) text = (host.keep (host.write w' file text) file).1

  unfoldable pub print_stats : String → String → host.World → host.World
  print_stats model text w = let w₁ = ensure_directory w in fill w₁ (host.create w₁ model) text
