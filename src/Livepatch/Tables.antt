-- ===== src/Livepatch/Tables.antt =====
-- The tables of lpm.c, by which the live patching core knows what the patch replaces.
use yu.Prelude.{
  ℕ, ◌≡◌, refl, ap, ◌∙◌, Bool, true, false, ◌&&◌, Option, none, some, List, [], ◌∷◌, ◌==◌,
  if◌then◌else◌, inl, inr, Bool-cases,
}
use yu.Prelude.CString.{codes}
use yu.Prelude.Int.{ℤ, is_zero}
use yu.Prelude.Trace.{Run, done}
use yu.Livepatch.{
  State, Answers, Event, livepatch_init, livepatch_exit, livepatch_cmdline_proc_show,
}
use yu.Livepatch.Init.{
  Status, follow, absent, returned_for, registered_with, livepatch_init_status,
  livepatch_exit_status,
}

-- The functions behind a file of /proc that are modelled here, and text as its bytes.
abbrev pub Show : Type 0
Show = ℕ → ℕ → State → Run Event (State × ℤ)

abbrev pub Text : Type 0
Text = List ℕ

-- A null pointer is `none`.
pub record KlpFunc : Type 0 where
  pub old_name : Option Text
  pub new_func : Option Show

pub record KlpObject : Type 0 where
  pub name : Option Text
  pub funcs : Option (List KlpFunc)

pub record KlpPatch : Type 0 where
  pub objs : List KlpObject

-- Both arrays end with an element whose members are all null. `patch.mod` is the module itself.
unfoldable pub funcs : List KlpFunc
funcs =
    record {
      old_name = some (codes "cmdline_proc_show");
      new_func = some livepatch_cmdline_proc_show;
    }
    ∷ record { old_name = none; new_func = none }
    ∷ []

unfoldable pub objs : List KlpObject
objs = record { name = none; funcs = some funcs } ∷ record { name = none; funcs = none } ∷ []

unfoldable pub patch : KlpPatch
patch = record { objs = objs }

abbrev pub same : Text → Text → Bool
same [] [] = true
same (c ∷ cs) (d ∷ ds) = c == d && same cs ds
same _ _ = false

-- How the core reads the tables: up to the element that ends them, and an object without a name is
-- the kernel itself. `none` is a function that is not replaced.
abbrev pub in_funcs : Text → List KlpFunc → Option Show
in_funcs name [] = none
in_funcs name (f ∷ fs) = elim f.old_name [
  | none ↦ none
  | some old ↦ if same old name then f.new_func else in_funcs name fs
]

abbrev pub in_objs : Text → List KlpObject → Option Show
in_objs name [] = none
in_objs name (o ∷ os) = elim o.funcs [
  | none ↦ none
  | some fs ↦ elim o.name [
    | some module_name ↦ in_objs name os
    | none ↦ elim (in_funcs name fs) [ some new ↦ some new | none ↦ in_objs name os ]
  ]
]

-- What the live patching core promises: which function runs in the kernel under a name, with a patch
-- that is in force or is not. `original` is what the kernel was built with.
pub record Core (original : Text → Show) : Type 0 where
  pub running : KlpPatch → Bool → Text → Show
  pub disabled : (p : KlpPatch) (name : Text) → running p false name ≡ original name
  pub listed :
      (p : KlpPatch) (name : Text) (new : Show)
      → in_objs name p.objs ≡ some new
      → running p true name ≡ new
  pub unlisted :
      (p : KlpPatch) (name : Text)
      → in_objs name p.objs ≡ none
      → running p true name ≡ original name

replaced :
    (name : Text)
    → in_objs name patch.objs
      ≡ (if same (codes "cmdline_proc_show") name then some livepatch_cmdline_proc_show else none)
unfolding patch objs funcs
replaced name = elim (Bool-cases (same (codes "cmdline_proc_show") name)) [
  | inl e ↦ rw e refl
  | inr e ↦ rw e refl
]

module _ (original : Text → Show) (core : Core original) (name : Text) where
  running-patch :
      (b : Bool)
      → core.running patch b name ≡ (
          if b && same (codes "cmdline_proc_show") name
          then livepatch_cmdline_proc_show
          else original name)
  running-patch false = core.disabled patch name
  running-patch true = elim (Bool-cases (same (codes "cmdline_proc_show") name)) [
    | inl e ↦ rw e (core.listed patch name livepatch_cmdline_proc_show (replaced name ∙ rw e refl))
    | inr e ↦ rw e (core.unlisted patch name (replaced name ∙ rw e refl))
  ]

  -- `klp_unregister_patch` unregisters a patch that is not in force, and refuses one that is with
  -- -EBUSY. Then `livepatch_init` ends, and the function that runs under a name is
  -- `livepatch_cmdline_proc_show` if the result is 0 and the name is "cmdline_proc_show", and else the
  -- one that the kernel was built with. Of a patch that is registered, and disabled or in force when
  -- the module is unloaded: `livepatch_exit` unregisters the one that is disabled, and the function of
  -- the kernel then runs under every name; the one that is in force stays registered and runs on.
  pub livepatch_init-running :
      (a : Answers) (s : State) (in_force : Bool)
      → a.unregister_patch ≡ returned_for false
      → a.unregister_at_exit ≡ returned_for in_force
      → (s' : State) × (ret : ℤ) × ((livepatch_init a s).outcome ≡ done (s', ret))
        × (core.running patch (follow absent (livepatch_init a s).calls).enabled name ≡ (
            if is_zero ret && same (codes "cmdline_proc_show") name
            then livepatch_cmdline_proc_show
            else original name))
        × (core.running patch
              (follow (registered_with in_force) (livepatch_exit a).calls).enabled
              name
            ≡ (if in_force && same (codes "cmdline_proc_show") name
                then livepatch_cmdline_proc_show
                else original name))
        × ((follow (registered_with in_force) (livepatch_exit a).calls).registered ≡ in_force)
  livepatch_init-running a s in_force u v =
      let (s', ret, ends, zero, status, bypass) = livepatch_init_status a s u in
      let left = livepatch_exit_status a in_force v in
      (
        s',
        ret,
        ends,
        ap (λ (st : Status). core.running patch st.enabled name) status
            ∙ running-patch (is_zero ret),
        ap (λ (st : Status). core.running patch st.enabled name) left ∙ running-patch in_force,
        ap (λ (st : Status). st.registered) left,
      )
