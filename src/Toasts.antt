-- ===== src/Toasts.antt =====
-- apps/desktop/src/components/ui/Toast.tsx: the list of toasts of `ToastProvider`.
pub mod Distinct
use ep2pchat.Base.{
  ℕ, ◌+◌, ◌≡◌, String, Bool, true, false, Option, none, some, List, [], ◌∷◌, ◌++◌, if◌then◌else◌,
  any_if, string_dec, ◌&&◌, nat_eq, keep_if, not,
}

-- `warning` is no variant of the source's type, but ChatArena.tsx gives it.
pub data ToastVariant : Type 0 where
  success error info warning : ToastVariant

pub record Toast : Type 0 where
  pub id : ℕ
  pub message : String
  pub variant : ToastVariant

pub record Toasts : Type 0 where
  pub toasts : List Toast
  pub next_id : ℕ

abbrev pub no_toasts : Toasts
no_toasts = record { toasts = []; next_id = 0 }

abbrev pub variant_eq : ToastVariant → ToastVariant → Bool
variant_eq success success = true
variant_eq error error = true
variant_eq info info = true
variant_eq warning warning = true
variant_eq _ _ = false

abbrev pub same_toast : String → ToastVariant → Toast → Bool
same_toast message variant t =
    (elim (string_dec t.message message) [ yes _ ↦ true | no _ ↦ false ])
    && variant_eq t.variant variant

unfoldable pub add_toast : String → ToastVariant → Toasts → Toasts
add_toast message variant s = if any_if (same_toast message variant) s.toasts then s else (record {
  toasts = s.toasts ++ record { id = s.next_id; message = message; variant = variant } ∷ [];
  next_id = s.next_id + 1;
})

unfoldable pub remove_toast : ℕ → Toasts → Toasts
remove_toast id s = record s { toasts = keep_if (λ t. not (nat_eq t.id id)) s.toasts }

pub data ToastCall : Type 0 where
  adds : String → ToastVariant → ToastCall
  removes : ℕ → ToastCall

unfoldable pub toast_calls : List ToastCall → Toasts → Toasts
toast_calls [] s = s
toast_calls (adds m v ∷ cs) s = toast_calls cs (add_toast m v s)
toast_calls (removes i ∷ cs) s = toast_calls cs (remove_toast i s)
