-- ===== src/Formatter/Files.antt =====
-- `flush_allocs` on the file system: it changes no file that exists.
use ia2_provsan.Base.{
  ℕ, String, Bool, true, false, Option, none, some, List, [], ◌∷◌, ◌≡◌, ◌≢◌, ◌∙◌, ◌==◌, ◌⊎◌, inl,
  inr, subst, Bool-cases, Option-cases, if◌then◌else◌,
}
use ia2_provsan.Signals.{Stats}
use ia2_provsan.Site.{AllocSite}
use ia2_provsan.Hooks.{Runtime, get_or_init}
use ia2_provsan.Formatter.{
  Host, test_directory, write_json, stats_text, make_unique_filename, make_unique_stream,
  is_directory, written, write_stats, then_stats, write_files, ensure_directory, write_unique_file,
  flush_set, flush_allocs,
}
use ia2_provsan.Formatter.Names.{make_unique_filename_free}

-- What POSIX says of the calls: the contents of files, which no call changes at another path.
pub record FileLaws (host : Host) : Type 0 where
  pub contents : host.World → String → Option String
  pub stat_file :
      (w : host.World) (p text : String) → contents w p ≡ some text → host.stat w p ≡ some false
  pub open_elsewhere :
      (w w' : host.World) (name p : String)
      → p ≢ name
      → host.open_stream w name ≡ some w'
      → contents w' p ≡ contents w p
  pub write_elsewhere :
      (w : host.World) (name p text : String)
      → p ≢ name
      → contents (host.write w name text) p ≡ contents w p
  pub mkdir_keeps :
      (w w' : host.World) (directory p text : String)
      → host.mkdir w directory ≡ some w'
      → contents w p ≡ some text
      → contents w' p ≡ some text
  -- A stream that was just opened holds what is written to it.
  pub write_opened :
      (w w' : host.World) (name text : String)
      → host.open_stream w name ≡ some w'
      → contents (host.write w' name text) name ≡ some text

module _ (host : Host) (laws : FileLaws host) where
  -- Every file of one world is in the other, with its contents.
  abbrev pub Keeps : host.World → host.World → Type 0
  Keeps w w' = (p text : String) → laws.contents w p ≡ some text → laws.contents w' p ≡ some text

  Keeps-trans : (w₁ w₂ w₃ : host.World) → Keeps w₁ w₂ → Keeps w₂ w₃ → Keeps w₁ w₃
  Keeps-trans w₁ w₂ w₃ a b p text h = b p text (a p text h)

  -- A free name is written.
  free-Keeps :
      (w w' : host.World) (name text : String)
      → host.stat w name ≡ none
      → host.open_stream w name ≡ some w'
      → Keeps w (host.write w' name text)
  free-Keeps w w' name text free opens p old h =
      let apart : p ≢ name = λ e. let file = laws.stat_file w p old h in cc in
      laws.write_elsewhere w' name p text apart ∙ laws.open_elsewhere w w' name p apart opens ∙ h

  written-Keeps :
      (w : host.World) (draw : ℕ → ℕ) (path base_name extension text : String)
      → Keeps w (written host w (make_unique_stream host w draw path base_name extension) text).1
  unfolding make_unique_stream
  written-Keeps w draw path base_name extension text =
      elim (Option-cases (make_unique_filename host w draw path base_name extension)) [
        | inl failed ↦ rw failed (λ p old h. h)
        | inr (name, chosen) ↦ elim (Option-cases (host.open_stream w name)) [
          | inl refused ↦ rw (chosen, refused) (λ p old h. h)
          | inr (w', opens) ↦
              rw (chosen, opens)
                (free-Keeps w w' name text
                  (make_unique_filename_free host w draw path base_name extension name chosen)
                  opens)
        ]
      ]

  pub write_stats-Keeps :
      (w : host.World) (draw : ℕ → ℕ) (st : Stats) → Keeps w (write_stats host w draw st).1
  unfolding write_stats
  write_stats-Keeps w draw st = elim (Bool-cases (st.alloc_site_count == 0)) [
    | inl off ↦ rw off (λ p old h. h)
    | inr on ↦ rw on (written-Keeps w draw test_directory "runtime-stats" "stat" (stats_text st))
  ]

  then_stats-Keeps :
      (r : Bool × host.World) (draw : ℕ → ℕ) (st : Stats) → Keeps r.1 (then_stats host r draw st).1
  then_stats-Keeps (true, w) draw st = write_stats-Keeps w draw st
  then_stats-Keeps (false, w) draw st = λ p old h. h

  write_files-Keeps :
      (w : host.World) (draw stats_draw : ℕ → ℕ) (st : Stats) (fault_set : List AllocSite)
      → Keeps w (write_files host w draw stats_draw st fault_set).1
  unfolding write_files
  write_files-Keeps w draw stats_draw st fault_set =
      let stream = make_unique_stream host w draw test_directory "faulting-allocs" "json" in
      let r = written host w stream (write_json fault_set) in
      Keeps-trans w r.1 (then_stats host r stats_draw st).1
        (written-Keeps w draw test_directory "faulting-allocs" "json" (write_json fault_set))
        (then_stats-Keeps r stats_draw st)

  same_or_made :
      (b : Bool) (w w' : host.World) (made : Option host.World)
      → (if b then some w else made) ≡ some w'
      → (w ≡ w') ⊎ (made ≡ some w')
  same_or_made true w w' made e = inl cc
  same_or_made false w w' made e = inr e

  ensure-Keeps : (w w' : host.World) → ensure_directory host w ≡ some w' → Keeps w w'
  unfolding ensure_directory
  ensure-Keeps w w' e =
      elim (same_or_made (is_directory host w test_directory) w w' (host.mkdir w test_directory)
        e) [
          | inl same ↦ λ p text h. subst (λ v. laws.contents v p ≡ some text) same h
          | inr made ↦ λ p text h. laws.mkdir_keeps w w' test_directory p text made h
        ]

  write_unique_file-Keeps :
      (w : host.World) (draw stats_draw : ℕ → ℕ) (st : Stats) (fault_set : List AllocSite)
      → Keeps w (write_unique_file host w draw stats_draw st fault_set).1
  unfolding write_unique_file
  write_unique_file-Keeps w draw stats_draw st fault_set =
      elim (Option-cases (ensure_directory host w)) [
        | inl failed ↦ rw failed (λ p old h. h)
        | inr (w', made) ↦ rw made (
            Keeps-trans w w' (write_files host w' draw stats_draw st fault_set).1
              (ensure-Keeps w w' made) (write_files-Keeps w' draw stats_draw st fault_set))
      ]

  flush_set-Keeps :
      (fault_set : List AllocSite) (w : host.World) (draw stats_draw : ℕ → ℕ) (st : Stats)
      → Keeps w (flush_set host fault_set w draw stats_draw st)
  flush_set-Keeps [] w draw stats_draw st = λ p old h. h
  flush_set-Keeps (fault ∷ faults) w draw stats_draw st =
      write_unique_file-Keeps w draw stats_draw st (fault ∷ faults)

  -- On a host whose calls change no file at another path, a flush leaves every file that exists
  -- with its contents, whatever the generators draw, and whether the flush succeeds or fails.
  pub flush_allocs-Keeps :
      (rt : Runtime) (w : host.World) (draw stats_draw : ℕ → ℕ) (p text : String)
      → laws.contents w p ≡ some text
      → laws.contents (flush_allocs host rt w draw stats_draw).1 p ≡ some text
  unfolding flush_allocs
  flush_allocs-Keeps rt w draw stats_draw p text h =
      flush_set-Keeps (get_or_init rt).0.fault_set w draw stats_draw (get_or_init rt).1.stats p text
        h
