-- ===== src/Toasts/Distinct.antt =====
-- Toast.tsx: no two toasts have one id, or one message and variant.
use ep2pchat.Base.{
  ℕ, ◌+◌, ◌<◌, ◌≡◌, ◌≢◌, String, Bool, false, List, [], ◌∷◌, ◌++◌, any_if, keep_if, not, nat_eq,
  All, All-append, arith, Bool-cases, inl, inr,
}
use ep2pchat.Toasts.{
  ToastVariant, Toast, Toasts, same_toast, add_toast, remove_toast, ToastCall, adds, removes,
  toast_calls,
}

-- The later toast `u` has another id than `t`, and another message or variant.
abbrev Differs : Toast → Toast → Type 0
Differs t u = (t.id ≢ u.id) × (same_toast u.message u.variant t ≡ false)

abbrev AllDiffer : List Toast → Type 0
AllDiffer [] = Unit
AllDiffer (t ∷ ts) = All (Differs t) ts × AllDiffer ts

pub record IsDistinct (s : Toasts) : Type 0 where
  pub differ : AllDiffer s.toasts
  pub below : All (λ (t : Toast). t.id < s.next_id) s.toasts

module _ (P : Toast → Type 0) where
  All-keep_if : (p : Toast → Bool) (ts : List Toast) → All P ts → All P (keep_if p ts)
  All-keep_if p [] h = tt
  All-keep_if p (t ∷ ts) (h, hs) = elim (Bool-cases (p t)) [
    | inl e ↦ rw e (h, All-keep_if p ts hs)
    | inr e ↦ rw e (All-keep_if p ts hs)
  ]

AllDiffer-keep_if : (p : Toast → Bool) (ts : List Toast) → AllDiffer ts → AllDiffer (keep_if p ts)
AllDiffer-keep_if p [] h = tt
AllDiffer-keep_if p (t ∷ ts) (h, hs) = elim (Bool-cases (p t)) [
  | inl e ↦ rw e (All-keep_if (Differs t) p ts h, AllDiffer-keep_if p ts hs)
  | inr e ↦ rw e (AllDiffer-keep_if p ts hs)
]

AllDiffer-append :
    (n : ℕ) (m : String) (v : ToastVariant) (ts : List Toast)
    → AllDiffer ts
    → All (λ (t : Toast). t.id < n) ts
    → any_if (same_toast m v) ts ≡ false
    → AllDiffer (ts ++ record { id = n; message = m; variant = v } ∷ [])
AllDiffer-append n m v [] d b h = (tt, tt)
AllDiffer-append n m v (t ∷ ts) (d, ds) (b, bs) h =
    let u : Toast = record { id = n; message = m; variant = v } in
    let rest : any_if (same_toast m v) ts ≡ false = ground arith in
    (
      All-append (Differs t) ts (u ∷ []) d ((omega arith, ground arith), tt),
      AllDiffer-append n m v ts ds bs rest,
    )

below-suc :
    (n : ℕ) (ts : List Toast)
    → All (λ (t : Toast). t.id < n) ts
    → All (λ (t : Toast). t.id < n + 1) ts
below-suc n [] h = tt
below-suc n (t ∷ ts) (h, hs) = (omega arith, below-suc n ts hs)

add_toast-IsDistinct :
    (m : String) (v : ToastVariant) (s : Toasts) → IsDistinct s → IsDistinct (add_toast m v s)
unfolding add_toast
add_toast-IsDistinct m v s w = elim (Bool-cases (any_if (same_toast m v) s.toasts)) [
  | inl e ↦ rw e w
  | inr e ↦ rw e (record {
    differ = AllDiffer-append s.next_id m v s.toasts w.differ w.below e;
    below =
        All-append (λ (t : Toast). t.id < s.next_id + 1) s.toasts
          (record { id = s.next_id; message = m; variant = v } ∷ [])
          (below-suc s.next_id s.toasts w.below) (omega arith, tt);
  })
]

remove_toast-IsDistinct : (i : ℕ) (s : Toasts) → IsDistinct s → IsDistinct (remove_toast i s)
unfolding remove_toast
remove_toast-IsDistinct i s w = record {
  differ = AllDiffer-keep_if (λ (t : Toast). not (nat_eq t.id i)) s.toasts w.differ;
  below =
      All-keep_if (λ (t : Toast). t.id < s.next_id) (λ (t : Toast). not (nat_eq t.id i)) s.toasts
        w.below;
}

-- From a list where this holds, and so from the empty one, after any additions and removals no two
-- toasts have one id, or one message and variant, and every id is below the next one.
pub toast_calls-IsDistinct :
    (cs : List ToastCall) (s : Toasts) → IsDistinct s → IsDistinct (toast_calls cs s)
unfolding toast_calls
toast_calls-IsDistinct [] s w = w
toast_calls-IsDistinct (adds m v ∷ cs) s w =
    toast_calls-IsDistinct cs (add_toast m v s) (add_toast-IsDistinct m v s w)
toast_calls-IsDistinct (removes i ∷ cs) s w =
    toast_calls-IsDistinct cs (remove_toast i s) (remove_toast-IsDistinct i s w)
