-- ===== src/Sidebar/Grouping.antt =====
-- Sidebar.tsx: which contacts are shown, and when the grouping throws.
use mathlib.Core.Logic.{∥∥₁_elim}
use mathlib.Core.List.{Perm, Perm-prop, Permᴰ, perm_middle, perm_append_singleton, perm_append_comm}
use mathlib.Core.List.Perm as Perm
use ep2pchat.Base.{
  ◌≡◌, sym, ap, subst, ◌∙◌, String, Bool, true, false, List, [], ◌∷◌, ◌++◌, append_assoc,
  append-nil, if◌then◌else◌, if_pos, if_neg, string_dec, keep_if, not, refl, Option, none, some,
  any_if, Bool-cases, inl, inr,
}
use ep2pchat.Stores.{Contact}
use ep2pchat.Workflows.{has}
use ep2pchat.Sidebar.{
  Groups, inherited, pushed, grouped, add_contact, add_contacts, department_of, matches,
  grouped_contacts,
}

-- The contacts of all departments, in order.
abbrev pub flat : List (String × List Contact) → List Contact
flat [] = []
flat ((d, cs) ∷ ds) = cs ++ flat ds

-- What the departments show, after the pinned contacts.
abbrev pub shown : Groups → List Contact
shown g = g.pinned ++ flat g.departments

perm_of_eq : {xs ys : List Contact} → xs ≡ ys → Perm xs ys
perm_of_eq {xs} e = subst (Perm xs) e (Perm.refl xs)

flat-Permᴰ : {xs ys : List (String × List Contact)} → Permᴰ xs ys → Perm (flat xs) (flat ys)
flat-Permᴰ Permᴰ.nil = Perm.refl []
flat-Permᴰ (Permᴰ.cons {a = a} {l₂ = l₂} e p) =
    Perm.trans (Perm.append_left a.1 (flat-Permᴰ p)) (perm_of_eq (ap (λ x. x.1 ++ flat l₂) e))
flat-Permᴰ (Permᴰ.swap {a = a} {b = b} {a' = c} {l = l} e f) =
    Perm.trans (perm_of_eq (sym (append_assoc a.1 b.1 (flat l)))) (
      Perm.trans (Perm.append_right (flat l) (perm_append_comm a.1 b.1)) (
        Perm.trans (perm_of_eq (append_assoc b.1 a.1 (flat l)))
          (perm_of_eq (ap (λ x. x.1 ++ (a.1 ++ flat l)) f ∙ ap (λ x. c.1 ++ (x.1 ++ flat l)) e))))
flat-Permᴰ (Permᴰ.trans p q) = Perm.trans (flat-Permᴰ p) (flat-Permᴰ q)

flat-pushed :
    (c : Contact) (ds : List (String × List Contact)) → Perm (flat (pushed c ds)) (c ∷ flat ds)
unfolding pushed
flat-pushed c [] = Perm.refl (c ∷ [])
flat-pushed c ((d, cs) ∷ ds) = elim (string_dec d (department_of c)) [
  | yes e ↦ rw (if_pos _ e) (Perm.append_right (flat ds) (perm_append_singleton c cs))
  | no n ↦
      rw (if_neg _ n)
        (Perm.trans (Perm.append_left cs (flat-pushed c ds)) (perm_middle cs (flat ds)))
]

-- The contact's department has the name of a property that objects inherit.
abbrev pub is_inherited : Contact → Bool
is_inherited c = has (department_of c) inherited

-- Adding the contacts throws exactly if one is of such a department; else each is in its group.
data Added (cs : List Contact) (ds : List (String × List Contact))
    : Option (List (String × List Contact)) → Type 0 where
  added :
      (es : List (String × List Contact))
      → any_if is_inherited cs ≡ false
      → Perm (flat es) (cs ++ flat ds)
      → Added cs ds (some es)
  thrown : any_if is_inherited cs ≡ true → Added cs ds none

then_Added :
    (c : Contact) (cs : List Contact) (ds : List (String × List Contact))
    (o : Option (List (String × List Contact)))
    → is_inherited c ≡ false
    → Added cs (pushed c ds) o
    → Added (c ∷ cs) ds o
then_Added c cs ds _ f (added es g p) =
    added es (rw f g) (
      Perm.trans p (Perm.trans (Perm.append_left cs (flat-pushed c ds)) (perm_middle cs (flat ds))))
then_Added c cs ds _ f (thrown g) = thrown (rw f g)

add_contacts-Added :
    (cs : List Contact) (ds : List (String × List Contact)) → Added cs ds (add_contacts cs ds)
unfolding add_contacts add_contact
add_contacts-Added [] ds = added ds refl (Perm.refl (flat ds))
add_contacts-Added (c ∷ cs) ds = elim (Bool-cases (is_inherited c)) [
  | inl t ↦ rw (t, add_contacts, add_contact) (thrown (rw t refl))
  | inr f ↦
      rw (f, add_contacts, add_contact)
        (then_Added c cs ds _ f (add_contacts-Added cs (pushed c ds)))
]

part_step :
    (b : Bool) (c : Contact) (xs ys zs : List Contact)
    → Perm (xs ++ ys) zs
    → Perm ((if b then c ∷ xs else xs) ++ (if not b then c ∷ ys else ys)) (c ∷ zs)
part_step true c xs ys zs h = Perm.cons c h
part_step false c xs ys zs h = Perm.trans (perm_middle xs ys) (Perm.cons c h)

parted :
    (p : Contact → Bool) (cs : List Contact) → Perm (keep_if p cs ++ keep_if (λ c. not (p c)) cs) cs
parted p [] = Perm.refl []
parted p (c ∷ cs) = part_step (p c) c (keep_if p cs) (keep_if (λ d. not (p d)) cs) cs (parted p cs)

-- What the sidebar makes of the contacts `found`, of which `rest` are not pinned: it shows each of
-- them as often as it is there, or it throws, as a department has the name of an inherited property.
pub data Shows (rest found : List Contact) : Option Groups → Type 0 where
  shows :
      (g : Groups)
      → any_if is_inherited rest ≡ false
      → Perm (shown g) found
      → Shows rest found (some g)
  throws : any_if is_inherited rest ≡ true → Shows rest found none

module _ (to_lower_case : String → String)
    (sorted : List (String × List Contact) → List (String × List Contact))
    (sorted-Perm : (ds : List (String × List Contact)) → Perm (sorted ds) ds) where
  grouped-Shows :
      (pin : Contact → Bool) (found : List Contact) (o : Option (List (String × List Contact)))
      → Added (keep_if (λ c. not (pin c)) found) [] o
      → Shows
          (keep_if (λ c. not (pin c)) found)
          found
          (grouped to_lower_case sorted (keep_if pin found) o)
  grouped-Shows pin found _ (thrown t) = throws t
  grouped-Shows pin found _ (added es f p) = shows _ f (
      Perm.trans
        (Perm.append_left (keep_if pin found) (
          Perm.trans (∥∥₁_elim (sorted-Perm es) Perm-prop (λ q. flat-Permᴰ q))
            (Perm.trans p (perm_of_eq (append-nil (keep_if (λ c. not (pin c)) found))))))
        (parted pin found))

  -- Where the sorting only reorders, the grouping throws exactly if a contact that matches the search
  -- and is not pinned has a department with the name of a property that objects inherit; else the
  -- pinned contacts and those of the departments are together the contacts that match the search,
  -- each as often as it is in the store.
  pub grouped_contacts-Shows :
      (search_query : String) (pinned_contacts : List String) (contacts : List Contact)
      → (let found = keep_if (matches to_lower_case sorted search_query) contacts in
          Shows
            (keep_if (λ (c : Contact). not (has c.id pinned_contacts)) found)
            found
            (grouped_contacts to_lower_case sorted search_query pinned_contacts contacts))
  unfolding grouped_contacts
  grouped_contacts-Shows search_query pinned_contacts contacts =
      let found = keep_if (matches to_lower_case sorted search_query) contacts in
      let pin : Contact → Bool = λ c. has c.id pinned_contacts in
      grouped-Shows pin found _ (add_contacts-Added (keep_if (λ c. not (pin c)) found) [])
