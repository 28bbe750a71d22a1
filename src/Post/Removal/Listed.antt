-- ===== src/Post/Removal/Listed.antt =====
-- The loop over the list of hooks erases the calls in the list.
use ia2_provsan.Base.{
  ℕ, Bool, true, false, List, [], ◌∷◌, ◌≡◌, refl, sym, ◌∙◌, ap, Bool-cases, inl, inr, ◌==◌, ==_iff,
  arith, subst,
}
use ia2_provsan.Base.Outcome.{ok}
use ia2_provsan.Post.Ir.{CallBase, Function}
use ia2_provsan.Post.Patch.{any_call}
use ia2_provsan.Post.Patch.Replaced.{listed}
use ia2_provsan.Post.Removal.{erase_calls, has_identity, erase_inst, erase_hooks}
use ia2_provsan.Post.Removal.Erase.{erase_calls-twice, erase_calls_none, any_call-erase_calls}
use ia2_provsan.Post.Removal.Keys.{
  Key, keys, is_hook_name, push_if, identities, hook_ids, IsDistinct, AllKeys, AllKeys-map,
  AllKeys-both, ==_comm, any_call-listed,
}

-- Every identity of a list is that of a call.
abbrev pub AllPresent : List ℕ → List Function → Type 0
AllPresent [] m = Unit {0}
AllPresent (i ∷ is) m = (any_call (has_identity i) m ≡ true) × AllPresent is m

abbrev pub is_listed : List ℕ → CallBase → Bool
is_listed is c = listed is c.identity

different : (a i j : ℕ) → (j == i) ≡ false → (a == i) ≡ true → (a == j) ≡ false
different a i j other same = let e = (==_iff a i).0 same in rw (e, ==_comm i j) other

AllPresent-erase_calls :
    (is : List ℕ) (i : ℕ) (m : List Function)
    → listed is i ≡ false
    → AllPresent is m
    → AllPresent is (erase_calls (has_identity i) m)
unfolding listed
AllPresent-erase_calls [] i m new a = tt
AllPresent-erase_calls (j ∷ is) i m new (there, a) =
    let other : (i == j) ≡ false = ground (arith, new) in
    let rest : listed is i ≡ false = ground (arith, new) in
    (
      any_call-erase_calls (has_identity i) (has_identity j)
            (λ c same. different c.identity i j (==_comm j i ∙ other) same) m
          ∙ there,
      AllPresent-erase_calls is i m rest a,
    )

pub erase_hooks_listed :
    (is : List ℕ) (m : List Function)
    → IsDistinct is
    → AllPresent is m
    → erase_hooks m is ≡ ok (erase_calls (is_listed is) m)
unfolding erase_hooks erase_inst listed
erase_hooks_listed [] m d a = ap ok (sym (erase_calls_none (λ c. false) (λ c. refl) m))
erase_hooks_listed (i ∷ is) m (new, d) (there, a) = rw there (
    erase_hooks_listed is (erase_calls (has_identity i) m) d (AllPresent-erase_calls is i m new a)
    ∙ ap ok (erase_calls-twice (is_listed is) (has_identity i) m))

-- The hooks among calls with distinct identities.
hook_ids_unlisted :
    (ks : List Key) (i : ℕ) → listed (identities ks) i ≡ false → listed (hook_ids ks) i ≡ false
unfolding listed identities hook_ids
hook_ids_unlisted [] i h = refl
hook_ids_unlisted (k ∷ ks) i h =
    let other : (i == k.0) ≡ false = ground (arith, h) in
    let rest : listed (identities ks) i ≡ false = ground (arith, h) in
    elim (Bool-cases (is_hook_name k.1)) [
      | inl hook ↦ rw (hook, other) (hook_ids_unlisted ks i rest)
      | inr plain_call ↦ rw plain_call (hook_ids_unlisted ks i rest)
    ]

pub hook_ids-IsDistinct : (ks : List Key) → IsDistinct (identities ks) → IsDistinct (hook_ids ks)
unfolding identities hook_ids
hook_ids-IsDistinct [] d = tt
hook_ids-IsDistinct (k ∷ ks) (new, d) = elim (Bool-cases (is_hook_name k.1)) [
  | inl hook ↦ rw hook (hook_ids_unlisted ks k.0 new, hook_ids-IsDistinct ks d)
  | inr other ↦ rw other (hook_ids-IsDistinct ks d)
]

AllKeys-other :
    (ks : List Key) (i : ℕ)
    → listed (identities ks) i ≡ false
    → AllKeys (λ k. (k.0 == i) ≡ false) ks
unfolding listed identities
AllKeys-other [] i h = tt
AllKeys-other (k ∷ ks) i h =
    (==_comm k.0 i ∙ ground (arith, h), AllKeys-other ks i (ground (arith, h)))

-- A call is listed exactly when it is a hook.
abbrev pub Marks : List ℕ → Key → Type 0
Marks is k = listed is k.0 ≡ is_hook_name k.1

pub hook_ids-Marks : (ks : List Key) → IsDistinct (identities ks) → AllKeys (Marks (hook_ids ks)) ks
unfolding listed identities hook_ids
hook_ids-Marks [] d = tt
hook_ids-Marks (k ∷ ks) (new, d) =
    let others = AllKeys-other ks k.0 new in
    let ih = hook_ids-Marks ks d in
    elim (Bool-cases (is_hook_name k.1)) [
      | inl hook ↦
          let own : (k.0 == k.0) ≡ true = (==_iff k.0 k.0).1 refl in
          subst (λ is. AllKeys (Marks is) (k ∷ ks))
            (sym (ap (λ b. push_if b k.0 (hook_ids ks)) hook))
            (
              rw own (sym hook),
              AllKeys-map (λ l. Marks (hook_ids ks) l × ((l.0 == k.0) ≡ false))
                  (Marks (k.0 ∷ hook_ids ks)) ks (λ l both. rw both.1 both.0)
                  (AllKeys-both (Marks (hook_ids ks)) (λ l. (l.0 == k.0) ≡ false) ks ih others),
            )
      | inr other ↦
          subst (λ is. AllKeys (Marks is) (k ∷ ks))
            (sym (ap (λ b. push_if b k.0 (hook_ids ks)) other))
            (hook_ids_unlisted ks k.0 new ∙ sym other, ih)
    ]

abbrev AllIn : List ℕ → List ℕ → Type 0
AllIn [] js = Unit {0}
AllIn (i ∷ is) js = (listed js i ≡ true) × AllIn is js

AllIn-more : (is js : List ℕ) (j : ℕ) → AllIn is js → AllIn is (j ∷ js)
unfolding listed
AllIn-more [] js j a = tt
AllIn-more (i ∷ is) js j (there, a) = (rw there (ground arith), AllIn-more is js j a)

hook_ids-AllIn : (ks : List Key) → AllIn (hook_ids ks) (identities ks)
unfolding hook_ids identities
hook_ids-AllIn [] = tt
hook_ids-AllIn (k ∷ ks) =
    let later = AllIn-more (hook_ids ks) (identities ks) k.0 (hook_ids-AllIn ks) in
    let own : (k.0 == k.0) ≡ true = (==_iff k.0 k.0).1 refl in
    elim (Bool-cases (is_hook_name k.1)) [
      | inl hook ↦ rw hook (unfold listed in rw own, later)
      | inr other ↦ rw other later
    ]

AllIn-AllPresent :
    (is : List ℕ) (m : List Function) → AllIn is (identities (keys m)) → AllPresent is m
AllIn-AllPresent [] m a = tt
AllIn-AllPresent (i ∷ is) m (there, a) = (any_call-listed m i ∙ there, AllIn-AllPresent is m a)

pub hook_ids-AllPresent : (m : List Function) → AllPresent (hook_ids (keys m)) m
hook_ids-AllPresent m = AllIn-AllPresent (hook_ids (keys m)) m (hook_ids-AllIn (keys m))
