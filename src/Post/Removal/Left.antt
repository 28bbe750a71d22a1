-- ===== src/Post/Removal/Left.antt =====
-- A hook that the numbering has not come to: `removeFunctionUsers` loses its place in the users.
use ia2_provsan.Base.{String, Bool, true, List, [], ◌∷◌, ◌≡◌, refl, ◌∙◌, Bool-cases, inl, inr}
use ia2_provsan.Base.Outcome.{fails, erased_used}
use ia2_provsan.Post.Ir.{CallBase, Function}
use ia2_provsan.Post.Patch.{any_call, has_function}
use ia2_provsan.Post.Removal.{
  erase_calls, calls, any_lost, remove_function_users, remove_hook_function, remove_hooks,
}
use ia2_provsan.Post.Removal.Erase.{any_lost-erase_calls}
use ia2_provsan.Post.Removal.Keys.{keys, identities, hook_ids, IsDistinct}
use ia2_provsan.Post.Removal.Listed.{
  is_listed, erase_hooks_listed, hook_ids-IsDistinct, hook_ids-AllPresent,
}

has_function-erase_calls :
    (p : CallBase → Bool) (m : List Function) (name : String)
    → has_function (erase_calls p m) name ≡ has_function m name
unfolding has_function erase_calls
has_function-erase_calls p [] name = refl
has_function-erase_calls p (f ∷ m) name = rw (has_function-erase_calls p m name)

remove_hook_function_lost :
    (m : List Function) (name : String)
    → has_function m name ≡ true
    → any_lost (calls name) m ≡ true
    → remove_hook_function m name ≡ fails erased_used
unfolding remove_hook_function remove_function_users
remove_hook_function_lost m name there lost = elim (Bool-cases (any_call (calls name) m)) [
  | inl called ↦ rw (there, called)
  | inr uncalled ↦ rw (there, uncalled, lost)
]

-- In a module with the function `allocHook` whose calls have distinct identities, a call of it in
-- an unreachable block makes `removeHooks`, with the reachable hooks in its list, use what it has
-- erased.
pub remove_hooks_lost :
    (m : List Function)
    → IsDistinct (identities (keys m))
    → has_function m "allocHook" ≡ true
    → any_lost (calls "allocHook") m ≡ true
    → remove_hooks m (hook_ids (keys m)) ≡ fails erased_used
unfolding remove_hooks
remove_hooks_lost m distinct there lost =
    let ids = hook_ids (keys m) in
    rw
      (
        erase_hooks_listed ids m (hook_ids-IsDistinct (keys m) distinct) (hook_ids-AllPresent m),
        remove_hook_function_lost (erase_calls (is_listed ids) m) "allocHook"
            (has_function-erase_calls (is_listed ids) m "allocHook" ∙ there)
            (any_lost-erase_calls (calls "allocHook") (is_listed ids) m ∙ lost),
      )
      refl
