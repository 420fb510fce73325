-- ===== src/KernelList.antt =====
-- What the modules use of the kernel's `struct list_head`, which is not part of this repository:
-- an empty list, `list_add`, and the entries that `list_for_each_entry_safe` visits.
use yu.Prelude.{◌≡◌, refl, List, [], ◌∷◌}

pub record KernelList (A : Type 0) : Type 1 where
  pub Head : Type 0
  pub list_head : Head
  pub list_add : A → Head → Head
  pub entries : Head → List A
  pub entries-list_head : entries list_head ≡ []
  pub entries-list_add : (a : A) (h : Head) → entries (list_add a h) ≡ a ∷ entries h

-- The laws can be met.
abbrev pub plain_list : (A : Type 0) → KernelList A
plain_list A = record {
  Head = List A;
  list_head = [];
  list_add = λ a h. a ∷ h;
  entries = λ h. h;
  entries-list_head = refl;
  entries-list_add = λ a h. refl;
}
