-- ===== src/Tests/Faults.antt =====
-- One violation and the trap after it, in the main thread and in another.
use ia2_provsan.Base.{◌≡◌, refl, none, arith, inl, false}
use ia2_provsan.Base.Int.{pos, int_eq}
use ia2_provsan.Base.Outcome.{ok}
use ia2_provsan.Containers.Hashed.{find}
use ia2_provsan.Hooks.{get_or_init, with_handler}
use ia2_provsan.Handler.{new_handler}
use ia2_provsan.Handler.Pending.{pending}
use ia2_provsan.Pkru.{pkey_get}
use ia2_provsan.Fault.TwoKeys.{second_key_stays_open}
use ia2_provsan.Fault.{handle_pkuerr, disable_mpk, pku_trap}
use ia2_provsan.Fault.Step.{IsReady, main_thread_step, other_thread_step}
use ia2_provsan.Tests.Registers.{frame}
use ia2_provsan.Tests.Heap.{one_packed, one_runtime, no_chain}

ready : IsReady one_runtime (pos 9) 4100 1 frame
unfolding get_or_init find
ready = record {
  packed = one_packed;
  counted = λ v. inl refl;
  chains = λ v chain e. absurd (no_chain chain e);
  key = omega arith;
  word = omega arith;
  idle = refl;
}

main_thread_step_example :
    handle_pkuerr one_runtime (pos 9) 4100 1 frame
    ≡ ok (
      (main_thread_step one_runtime (pos 9) 4100 1 frame ready).0,
      (main_thread_step one_runtime (pos 9) 4100 1 frame ready).1,
    )
main_thread_step_example = (main_thread_step one_runtime (pos 9) 4100 1 frame ready).2

other_ids : int_eq (pos 9) (pos 8) ≡ false
unfolding int_eq
other_ids = refl

other_idle : find int_eq (get_or_init one_runtime).0.pkey_by_tid_map (pos 8) ≡ none
unfolding get_or_init find
other_idle = refl

other_thread_step_example :
    handle_pkuerr one_runtime (pos 9) 4100 1 frame
    ≡ ok (
      (other_thread_step one_runtime (pos 9) (pos 8) 4100 1 frame ready other_ids other_idle).0,
      (other_thread_step one_runtime (pos 9) (pos 8) 4100 1 frame ready other_ids other_idle).1,
    )
other_thread_step_example =
    (other_thread_step one_runtime (pos 9) (pos 8) 4100 1 frame ready other_ids other_idle).2

no_key : pending new_handler (pos 9) ≡ none
unfolding find
no_key = refl

second_key_stays_open_example :
    (pkey_get
        (pku_trap
          (disable_mpk
            (disable_mpk (with_handler one_runtime new_handler) (pos 9) 1 frame).0
            (pos 9)
            2
            (disable_mpk (with_handler one_runtime new_handler) (pos 9) 1 frame).1).0
          (pos 9)
          (disable_mpk
            (disable_mpk (with_handler one_runtime new_handler) (pos 9) 1 frame).0
            (pos 9)
            2
            (disable_mpk (with_handler one_runtime new_handler) (pos 9) 1 frame).1).1).1.pkru
        (pos 2)
      ≡ pos 0)
second_key_stays_open_example =
    (second_key_stays_open one_runtime new_handler (pos 9) 1 2 frame (omega arith) (omega arith)
      (λ e. absurd (omega arith)) (omega arith) no_key).0
