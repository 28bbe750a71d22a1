-- ===== src/Post/Run/Perms.antt =====
-- The list of hooks in another order, and the functions sorted.
use mathlib.Core.List.{Permᴰ}
use mathlib.Core.List.Permᴰ
use ia2_provsan.Base.{
  ℕ, Bool, true, false, List, [], ◌∷◌, ◌++◌, ◌≡◌, refl, sym, ◌∙◌, ap, subst, arith, if◌then◌else◌,
}
use ia2_provsan.Post.Ir.{Function}
use ia2_provsan.Post.Number.{func_sort, insert_sorted, sort_functions}
use ia2_provsan.Post.Patch.Replaced.{listed}
use ia2_provsan.Post.Removal.Keys.{
  Key, block_keys, keys, is_hook_name, push_if, hook_ids, IsDistinct, ==_comm,
}
use ia2_provsan.Post.Removal.Listed.{AllPresent}

pub listed-Perm : {is js : List ℕ} (i : ℕ) → Permᴰ is js → listed is i ≡ listed js i
unfolding listed
listed-Perm i Permᴰ.nil = refl
listed-Perm i (Permᴰ.cons e p) = rw (e, listed-Perm i p)
listed-Perm i (Permᴰ.swap e f) = rw (e, f) (ground arith)
listed-Perm i (Permᴰ.trans p q) = listed-Perm i p ∙ listed-Perm i q

swapped :
    (a b : ℕ) (l : List ℕ)
    → listed (b ∷ l) a ≡ false
    → listed l b ≡ false
    → listed (a ∷ l) b ≡ false
unfolding listed
swapped a b l new new' = rw (==_comm b a, new') (ground (arith, new))

first_new : (a b : ℕ) (l : List ℕ) → listed (b ∷ l) a ≡ false → listed l a ≡ false
unfolding listed
first_new a b l new = ground (arith, new)

pub IsDistinct-Perm : {is js : List ℕ} → Permᴰ is js → IsDistinct is → IsDistinct js
IsDistinct-Perm Permᴰ.nil d = tt
IsDistinct-Perm (Permᴰ.cons {a} {b} {l₁ = is} {l₂ = js} e p) (new, d) =
    (ap (λ x. listed js x) (sym e) ∙ sym (listed-Perm a p) ∙ new, IsDistinct-Perm p d)
IsDistinct-Perm (Permᴰ.swap {a} {b} {l} e f) (new, (new', d)) =
    subst (λ x. (y : ℕ) → b ≡ y → IsDistinct (y ∷ x ∷ l)) e
      (λ y g.
        subst (λ z. IsDistinct (z ∷ a ∷ l)) g (swapped a b l new new', (first_new a b l new, d)))
      _ f
IsDistinct-Perm (Permᴰ.trans p q) d = IsDistinct-Perm q (IsDistinct-Perm p d)

pub AllPresent-Perm :
    {is js : List ℕ} (m : List Function) → Permᴰ is js → AllPresent is m → AllPresent js m
AllPresent-Perm m Permᴰ.nil a = tt
AllPresent-Perm m (Permᴰ.cons e p) (there, a) = (rw (sym e) there, AllPresent-Perm m p a)
AllPresent-Perm m (Permᴰ.swap e f) (there, (there', a)) = (rw (sym f) there', (rw (sym e) there, a))
AllPresent-Perm m (Permᴰ.trans p q) a = AllPresent-Perm m q (AllPresent-Perm m p a)

-- The keys of permuted functions, and the hooks among permuted keys.
Perm-append_swap {ℓ} : {A : Type ℓ} (xs ys l : List A) → Permᴰ (xs ++ (ys ++ l)) (ys ++ (xs ++ l))
Perm-append_swap xs [] l = Permᴰ.refl _
Perm-append_swap xs (y ∷ ys) l =
    Permᴰ.trans (Permᴰ.middle y xs (ys ++ l)) (Permᴰ.cons refl (Perm-append_swap xs ys l))

pub keys-Perm : {fs gs : List Function} → Permᴰ fs gs → Permᴰ (keys fs) (keys gs)
unfolding keys
keys-Perm Permᴰ.nil = Permᴰ.nil
keys-Perm (Permᴰ.cons {a} {b} e p) = rw e (Permᴰ.append_left (block_keys b.blocks) (keys-Perm p))
keys-Perm (Permᴰ.swap {a} {b} {l} e f) =
    rw (sym e, sym f) (Perm-append_swap (block_keys a.blocks) (block_keys b.blocks) (keys l))
keys-Perm (Permᴰ.trans p q) = Permᴰ.trans (keys-Perm p) (keys-Perm q)

push_if-Perm :
    (b : Bool) (i : ℕ) {is js : List ℕ} → Permᴰ is js → Permᴰ (push_if b i is) (push_if b i js)
push_if-Perm true i p = Permᴰ.cons refl p
push_if-Perm false i p = p

push_if-swap :
    (b c : Bool) (i j : ℕ) (is : List ℕ)
    → Permᴰ (push_if b i (push_if c j is)) (push_if c j (push_if b i is))
push_if-swap true true i j is = Permᴰ.swap refl refl
push_if-swap true false i j is = Permᴰ.refl _
push_if-swap false true i j is = Permᴰ.refl _
push_if-swap false false i j is = Permᴰ.refl _

pub hook_ids-Perm : {ks ls : List Key} → Permᴰ ks ls → Permᴰ (hook_ids ks) (hook_ids ls)
unfolding hook_ids
hook_ids-Perm Permᴰ.nil = Permᴰ.nil
hook_ids-Perm (Permᴰ.cons {a} {b} e p) =
    rw e (push_if-Perm (is_hook_name b.1) b.0 (hook_ids-Perm p))
hook_ids-Perm (Permᴰ.swap {a} {b} {l} e f) =
    rw (sym e, sym f) (push_if-swap (is_hook_name a.1) (is_hook_name b.1) a.0 b.0 (hook_ids l))
hook_ids-Perm (Permᴰ.trans p q) = Permᴰ.trans (hook_ids-Perm p) (hook_ids-Perm q)

insert_choice :
    (follows : Bool) (f g : Function) (gs rest : List Function)
    → Permᴰ rest (f ∷ gs)
    → Permᴰ (if follows then g ∷ rest else f ∷ g ∷ gs) (f ∷ g ∷ gs)
insert_choice true f g gs rest p = Permᴰ.trans (Permᴰ.cons refl p) (Permᴰ.swap refl refl)
insert_choice false f g gs rest p = Permᴰ.refl _

insert_sorted-Perm : (f : Function) (gs : List Function) → Permᴰ (insert_sorted f gs) (f ∷ gs)
unfolding insert_sorted
insert_sorted-Perm f [] = Permᴰ.refl _
insert_sorted-Perm f (g ∷ gs) =
    insert_choice (func_sort g f) f g gs (insert_sorted f gs) (insert_sorted-Perm f gs)

pub sort_functions-Perm : (fs : List Function) → Permᴰ (sort_functions fs) fs
unfolding sort_functions
sort_functions-Perm [] = Permᴰ.nil
sort_functions-Perm (f ∷ fs) =
    Permᴰ.trans (insert_sorted-Perm f (sort_functions fs))
      (Permᴰ.cons refl (sort_functions-Perm fs))
