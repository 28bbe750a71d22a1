-- ===== src/Formatter/Profile.antt =====
-- `flush_allocs` on the file system: the profile that it writes.
use ia2_provsan.Base.{ℕ, ◌<◌, String, none, some, List, ◌∷◌, ◌≡◌, inl, inr}
use ia2_provsan.Signals.{Stats}
use ia2_provsan.Site.{AllocSite}
use ia2_provsan.Hooks.{Runtime, get_or_init}
use ia2_provsan.Formatter.{
  Host, attempts, test_directory, write_json, make_unique_filename, make_unique_stream, write_files,
  ensure_directory, write_unique_file, flush_set, flush_allocs,
}
use ia2_provsan.Formatter.Names.{candidate, make_unique_filename_first}
use ia2_provsan.Formatter.Files.{FileLaws, write_stats-Keeps}

module _ (host : Host) (laws : FileLaws host) where
  -- The profile's name at an attempt.
  abbrev pub profile_name : host.World → (ℕ → ℕ) → ℕ → String
  profile_name w draw j = candidate host w draw test_directory "faulting-allocs" "json" j

  -- The profile, whatever becomes of the statistics.
  write_files_profile :
      (w : host.World) (draw stats_draw : ℕ → ℕ) (st : Stats) (fault_set : List AllocSite)
      (name : String) (w' : host.World)
      → make_unique_filename host w draw test_directory "faulting-allocs" "json" ≡ some name
      → host.open_stream w name ≡ some w'
      → laws.contents (write_files host w draw stats_draw st fault_set).1 name
        ≡ some (write_json fault_set)
  unfolding write_files make_unique_stream
  write_files_profile w draw stats_draw st fault_set name w' chosen opens =
      rw (chosen, opens)
        (write_stats-Keeps host laws (host.write w' name (write_json fault_set)) stats_draw st name
          (write_json fault_set) (laws.write_opened w w' name (write_json fault_set) opens))

  flush_set_made :
      (w w₁ : host.World) (draw stats_draw : ℕ → ℕ) (st : Stats) (fault : AllocSite)
      (faults : List AllocSite)
      → ensure_directory host w ≡ some w₁
      → flush_set host (fault ∷ faults) w draw stats_draw st
        ≡ (write_files host w₁ draw stats_draw st (fault ∷ faults)).1
  unfolding write_unique_file
  flush_set_made w w₁ draw stats_draw st fault faults made = rw (flush_set, made)

  -- On such a host, where the directory is there or can be made, one of the 128 names is free and
  -- a stream opens at every free name, a flush of a fault set that is not empty leaves a file whose
  -- name was free and which holds the whole set, also where the statistics fail.
  pub flush_allocs-profile :
      (rt : Runtime) (w w₁ : host.World) (draw stats_draw : ℕ → ℕ) (k : ℕ) (fault : AllocSite)
      (faults : List AllocSite)
      → (get_or_init rt).0.fault_set ≡ fault ∷ faults
      → ensure_directory host w ≡ some w₁
      → k < attempts
      → host.stat w₁ (profile_name w₁ draw k) ≡ none
      → ((name : String)
          → host.stat w₁ name ≡ none
          → (w₂ : host.World) × (host.open_stream w₁ name ≡ some w₂))
      → (j : ℕ) × (host.stat w₁ (profile_name w₁ draw j) ≡ none)
        × (laws.contents (flush_allocs host rt w draw stats_draw).1 (profile_name w₁ draw j)
            ≡ some (write_json (fault ∷ faults)))
  unfolding flush_allocs
  flush_allocs-profile rt w w₁ draw stats_draw k fault faults set made below free opens =
      elim (make_unique_filename_first host w₁ draw test_directory "faulting-allocs" "json") [
        | inr (failed, all) ↦ absurd (all k below free)
        | inl (j, low, chosen, unused, before) ↦
            let name = profile_name w₁ draw j in
            let (w₂, opened) = opens name unused in
            let st = (get_or_init rt).1.stats in
            (
              j,
              unused,
              rw (set, flush_set_made w w₁ draw stats_draw st fault faults made)
                  (write_files_profile w₁ draw stats_draw st (fault ∷ faults) name w₂ chosen
                    opened),
            )
      ]
