-- ===== src/Handler/Pending.antt =====
-- The pending keys of the single-stepped threads.
use ia2_provsan.Base.{◌≡◌, refl, false, Option, none, some, arith, ap, ◌∙◌}
use ia2_provsan.Base.Int.{ℤ, int_eq, int_eq_iff}
use ia2_provsan.Containers.Hashed.{
  IsEquivalence, find, find-emplace, find-emplace_absent, erase-emplace, erase, emplace,
  emplace_present,
}
use ia2_provsan.Handler.{Handler, PendingPKeyInfo, store_pending_pkey_info, get_and_remove}

pub int_eq-IsEquivalence : IsEquivalence int_eq
int_eq-IsEquivalence = record {
  reflexive = λ a. (int_eq_iff a a).1 refl;
  symmetric = λ a b p. let e = (int_eq_iff a b).0 p in (int_eq_iff b a).1 (cc e);
  transitive = λ a b c p q.
      let e = (int_eq_iff a b).0 p in
      let f = (int_eq_iff b c).0 q in (int_eq_iff a c).1 (cc (e, f));
}

abbrev pub pending : Handler → ℤ → Option PendingPKeyInfo
pending h tid = find int_eq h.pkey_by_tid_map tid

get_and_remove-some :
    (h : Handler) (tid : ℤ) (info : PendingPKeyInfo)
    → pending h tid ≡ some info
    → get_and_remove h tid
      ≡ (some info, record h { pkey_by_tid_map = erase int_eq h.pkey_by_tid_map tid })
unfolding get_and_remove
get_and_remove-some h tid info e = ground arith

get_and_remove-none :
    (h : Handler) (tid : ℤ) → pending h tid ≡ none → get_and_remove h tid ≡ (none, h)
unfolding get_and_remove
get_and_remove-none h tid e = ground arith

pub pending-store_self :
    (h : Handler) (tid : ℤ) (info : PendingPKeyInfo)
    → pending h tid ≡ none
    → pending (store_pending_pkey_info h tid info) tid ≡ some info
unfolding store_pending_pkey_info
pending-store_self h tid info absent =
    find-emplace_absent int_eq int_eq-IsEquivalence h.pkey_by_tid_map tid info absent

pub pending-store_ne :
    (h : Handler) (tid other : ℤ) (info : PendingPKeyInfo)
    → int_eq tid other ≡ false
    → pending (store_pending_pkey_info h tid info) other ≡ pending h other
unfolding store_pending_pkey_info
pending-store_ne h tid other info ne =
    rw (find-emplace int_eq int_eq-IsEquivalence h.pkey_by_tid_map tid other info, ne)

erased :
    (h : Handler) (tid : ℤ) (info : PendingPKeyInfo)
    → pending h tid ≡ none
    → erase int_eq (store_pending_pkey_info h tid info).pkey_by_tid_map tid ≡ h.pkey_by_tid_map
unfolding store_pending_pkey_info
erased h tid info absent =
    erase-emplace int_eq int_eq-IsEquivalence h.pkey_by_tid_map tid info absent

-- Storing a key for a thread and taking it out again leaves the handler as it was.
pub get_and_remove-store_self :
    (h : Handler) (tid : ℤ) (info : PendingPKeyInfo)
    → pending h tid ≡ none
    → get_and_remove (store_pending_pkey_info h tid info) tid ≡ (some info, h)
unfolding store_pending_pkey_info
get_and_remove-store_self h tid info absent =
    let h' = store_pending_pkey_info h tid info in
    get_and_remove-some h' tid info (pending-store_self h tid info absent)
    ∙ ap (λ m. (some info, record h { pkey_by_tid_map = m })) (erased h tid info absent)

pub get_and_remove-store_ne :
    (h : Handler) (tid other : ℤ) (info : PendingPKeyInfo)
    → int_eq tid other ≡ false
    → pending h other ≡ none
    → get_and_remove (store_pending_pkey_info h tid info) other
      ≡ (none, store_pending_pkey_info h tid info)
get_and_remove-store_ne h tid other info ne absent =
    get_and_remove-none (store_pending_pkey_info h tid info) other
      (pending-store_ne h tid other info ne ∙ absent)

-- A second key that becomes pending in one thread is dropped.
pub store_twice :
    (h : Handler) (tid : ℤ) (first second : PendingPKeyInfo)
    → pending h tid ≡ none
    → store_pending_pkey_info (store_pending_pkey_info h tid first) tid second
      ≡ store_pending_pkey_info h tid first
unfolding store_pending_pkey_info
store_twice h tid first second absent =
    ap (λ m. record h { pkey_by_tid_map = m })
      (emplace_present int_eq int_eq-IsEquivalence (emplace int_eq h.pkey_by_tid_map tid first) tid
        second first
        (find-emplace_absent int_eq int_eq-IsEquivalence h.pkey_by_tid_map tid first absent))
