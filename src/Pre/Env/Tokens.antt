-- ===== src/Pre/Env/Tokens.antt =====
-- `str_to_vec` ends, and gives the parts between delimiters that are not empty.
use Prim.Native.Char.{Char, code}
use Prim.Native.String.{String, [], ◌∷◌, count}
use text.Mathlib.TextLemmas.{length-cons}
use mathlib.Core.List.{append_assoc, append-nil}
use ia2_provsan.Base.{
  ℕ, zero, suc, ◌≤◌, ◌<◌, false, List, ◌++◌, ◌==◌, if◌then◌else◌, ◌≡◌, refl, sym, ◌∙◌, ap, arith,
  Bool-cases, inl, inr,
}
use ia2_provsan.Base.Outcome.{Outcome, ok}
use ia2_provsan.Pre.Env.{skip, token, next_tokens, str_to_vec}

abbrev extend_first : Char → List String → List String
extend_first c List.[] = List.[]
extend_first c (List.◌∷◌ t parts) = List.◌∷◌ (c ∷ t) parts

-- All the parts of a text between its delimiters, the empty ones too.
unfoldable pub split : ℕ → String → List String
split delim [] = List.◌∷◌ [] List.[]
split delim (c ∷ s) =
    if code c == delim then List.◌∷◌ [] (split delim s) else extend_first c (split delim s)

abbrev push_filled : String → List String → List String
push_filled [] parts = parts
push_filled (c ∷ t) parts = List.◌∷◌ (c ∷ t) parts

-- The parts that are not empty.
unfoldable pub filled : List String → List String
filled List.[] = List.[]
filled (List.◌∷◌ t parts) = push_filled t (filled parts)

-- The parts behind the delimiter that the text begins with.
abbrev after : ℕ → String → List String
after delim [] = List.[]
after delim (c ∷ s) = split delim s

split-token :
    (delim : ℕ) (s : String)
    → split delim s ≡ List.◌∷◌ (token delim s).0 (after delim (token delim s).1)
unfolding split token
split-token delim [] = refl
split-token delim (c ∷ s) = elim (Bool-cases (code c == delim)) [
  | inl hit ↦ rw hit
  | inr other ↦ rw (other, split-token delim s)
]

-- What follows a token is empty or begins with a delimiter.
filled-rest :
    (delim : ℕ) (s : String)
    → filled (split delim (token delim s).1) ≡ filled (after delim (token delim s).1)
unfolding token
filled-rest delim [] = unfold split filled in refl
filled-rest delim (c ∷ s) = elim (Bool-cases (code c == delim)) [
  | inl hit ↦ rw hit (unfold split filled in rw hit)
  | inr other ↦ rw other (filled-rest delim s)
]

filled-skip :
    (delim : ℕ) (s : String) → filled (split delim (skip delim s)) ≡ filled (split delim s)
unfolding skip split filled
filled-skip delim [] = refl
filled-skip delim (c ∷ s) = elim (Bool-cases (code c == delim)) [
  | inl hit ↦ rw hit (filled-skip delim s)
  | inr other ↦ rw (other, other)
]

count-skip : (delim : ℕ) (s : String) → count (skip delim s) ≤ count s
unfolding skip
count-skip delim [] = omega arith
count-skip delim (c ∷ s) = ground (arith, count-skip delim s, length-cons c s)

count-token : (delim : ℕ) (s : String) → count (token delim s).1 ≤ count s
unfolding token
count-token delim [] = omega arith
count-token delim (c ∷ s) = ground (arith, count-token delim s, length-cons c s)

abbrev IsHeadFree : ℕ → String → Type 0
IsHeadFree delim [] = Unit {0}
IsHeadFree delim (c ∷ s) = (code c == delim) ≡ false

-- What is left after the delimiters does not begin with one.
skip-IsHeadFree : (delim : ℕ) (s : String) → IsHeadFree delim (skip delim s)
unfolding skip
skip-IsHeadFree delim [] = tt
skip-IsHeadFree delim (c ∷ s) = elim (Bool-cases (code c == delim)) [
  | inl hit ↦ rw hit (skip-IsHeadFree delim s)
  | inr other ↦ rw other other
]

-- A token in front, where the text does not begin with a delimiter.
filled-token :
    (delim : ℕ) (c : Char) (s : String)
    → (code c == delim) ≡ false
    → filled (split delim (c ∷ s))
      ≡ List.◌∷◌ (token delim (c ∷ s)).0 (filled (split delim (token delim (c ∷ s)).1))
filled-token delim c s other =
    rw (split-token delim (c ∷ s), filled-rest delim (c ∷ s)) (unfold token filled in rw other)

abbrev Tokenized : ℕ → ℕ → String → List String → Type 0
Tokenized rounds delim text ret =
    next_tokens rounds delim text ret ≡ ok (ret ++ filled (split delim text))

next_tokens_rest :
    (rounds delim : ℕ) (text : String) (ret : List String)
    → IsHeadFree delim text
    → count text < suc rounds
    → ((rest : String) (more : List String)
        → count rest < rounds
        → Tokenized rounds delim rest more)
    → elim text as (λ t. Outcome (List String)) [
      | [] ↦ ok ret
      | c ∷ s ↦
          let (t, rest) = token delim (c ∷ s) in
          next_tokens rounds delim rest (ret ++ List.◌∷◌ t List.[])
    ]
      ≡ ok (ret ++ filled (split delim text))
next_tokens_rest rounds delim [] ret free enough ih = unfold split filled in rw (append-nil ret)
next_tokens_rest rounds delim (c ∷ s) ret free enough ih =
    let t = (token delim (c ∷ s)).0 in
    let rest = (token delim (c ∷ s)).1 in
    let shorter : count rest ≤ count s = unfold token in rw free (count-token delim s) in
    ih rest (ret ++ List.◌∷◌ t List.[]) (omega (arith, shorter, length-cons c s))
    ∙ ap ok (append_assoc ret (List.◌∷◌ t List.[]) (filled (split delim rest)))
    ∙ ap (λ l. ok (ret ++ l)) (sym (filled-token delim c s free))

next_tokens-split :
    (rounds delim : ℕ) (text : String) (ret : List String)
    → count text < rounds
    → Tokenized rounds delim text ret
unfolding next_tokens
next_tokens-split zero delim text ret enough = absurd (omega arith)
next_tokens-split (suc rounds) delim text ret enough =
    next_tokens_rest rounds delim (skip delim text) ret (skip-IsHeadFree delim text)
      (omega (arith, count-skip delim text))
      (λ rest more h. next_tokens-split rounds delim rest more h)
    ∙ ap (λ l. ok (ret ++ l)) (filled-skip delim text)

-- With more rounds than the text has characters the loop ends, for every delimiter, and gives the
-- parts of the text between delimiters, in order, without the empty ones.
pub str_to_vec-split :
    (rounds : ℕ) (str : String) (delim : ℕ)
    → count str < rounds
    → str_to_vec rounds str delim ≡ ok (filled (split delim str))
unfolding str_to_vec
str_to_vec-split rounds str delim enough = next_tokens-split rounds delim str List.[] enough
