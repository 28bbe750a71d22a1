-- ===== src/PassStats/Kept.antt =====
-- `printStats` on the file system: a new file with the text, and the others as they were.
use ia2_provsan.Base.{
  String, true, Option, none, some, ◌≡◌, ◌≢◌, ◌∙◌, sym, inl, inr, Bool-cases, Option-cases,
}
use ia2_provsan.PassStats.{TempFiles, test_directory, ensure_directory, print_stats}

-- What LLVM says of the calls: a temporary file has a name that nothing has, a write fills that file
-- alone, and `keep` leaves it there; no call changes another file.
pub record TempLaws (host : TempFiles) : Type 0 where
  pub contents : host.World → String → Option String
  pub name : host.TempFile → String
  pub make_keeps :
      (w : host.World) (d p : String) → contents (host.create_directory w d) p ≡ contents w p
  pub create_new :
      (w w' : host.World) (model : String) (f : host.TempFile)
      → host.create w model ≡ some (f, w')
      → contents w (name f) ≡ none
  pub create_keeps :
      (w w' : host.World) (model p : String) (f : host.TempFile)
      → host.create w model ≡ some (f, w')
      → p ≢ name f
      → contents w' p ≡ contents w p
  pub write_fills :
      (w w' : host.World) (model text : String) (f : host.TempFile)
      → host.create w model ≡ some (f, w')
      → contents (host.write w' f text) (name f) ≡ some text
  pub write_keeps :
      (w : host.World) (f : host.TempFile) (text p : String)
      → p ≢ name f
      → contents (host.write w f text) p ≡ contents w p
  pub keep_keeps :
      (w : host.World) (f : host.TempFile) (p : String)
      → p ≢ name f
      → contents (host.keep w f).1 p ≡ contents w p
  pub kept :
      (w : host.World) (f : host.TempFile)
      → (host.keep w f).0 ≡ true
      → contents (host.keep w f).1 (name f) ≡ contents w (name f)

module _ (host : TempFiles) (laws : TempLaws host) where
  ensured :
      (w : host.World) (p : String) → laws.contents (ensure_directory host w) p ≡ laws.contents w p
  ensured w p = elim (Bool-cases (host.is_directory w test_directory)) [
    | inl there ↦ rw there
    | inr missing ↦ rw missing (laws.make_keeps w test_directory p)
  ]

  -- Every file of before has its contents, whether the temporary file is made and kept or not.
  pub print_stats-keeps :
      (model text p old : String) (w : host.World)
      → laws.contents w p ≡ some old
      → laws.contents (print_stats host model text w) p ≡ some old
  unfolding print_stats
  print_stats-keeps model text p old w held =
      let w₁ = ensure_directory host w in
      let before : laws.contents w₁ p ≡ some old = ensured w p ∙ held in
      elim (Option-cases (host.create w₁ model)) [
        | inl failed ↦ rw failed before
        | inr ((f, w₂), made) ↦
            let apart : p ≢ laws.name f = λ e. let new = laws.create_new w₁ w₂ model f made in cc in
            rw made (
              laws.keep_keeps (host.write w₂ f text) f p apart
              ∙ laws.write_keeps w₂ f text p apart
              ∙ laws.create_keeps w₁ w₂ model p f made apart
              ∙ before)
      ]

  -- Where the file is made and kept, it is new and has the text.
  pub print_stats-written :
      (model text : String) (w w₂ : host.World) (f : host.TempFile)
      → host.create (ensure_directory host w) model ≡ some (f, w₂)
      → (host.keep (host.write w₂ f text) f).0 ≡ true
      → (laws.contents w (laws.name f) ≡ none)
        × (laws.contents (print_stats host model text w) (laws.name f) ≡ some text)
  unfolding print_stats
  print_stats-written model text w w₂ f made stays =
      let w₁ = ensure_directory host w in
      (
        sym (ensured w (laws.name f)) ∙ laws.create_new w₁ w₂ model f made,
        rw made
            (laws.kept (host.write w₂ f text) f stays ∙ laws.write_fills w₁ w₂ model text f made),
      )
