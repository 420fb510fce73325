-- ===== src/Livepatch/Init.antt =====
-- When the patch of lpm.c is registered and enabled.
use yu.Prelude.{◌≡◌, refl, Bool, true, false, not, ◌&&◌, ◌||◌, List, [], ◌∷◌, if◌then◌else◌, arith}
use yu.Prelude.Int.{ℤ, pos, negsuc, is_zero}
use yu.Prelude.Trace.{done}
use yu.Livepatch.{
  State, Answers, Event, klp_register_patch, klp_enable_patch, klp_unregister_patch,
  register_and_enable, livepatch_init, livepatch_exit,
}

-- Whether the core holds the patch after the calls, and whether it is in force. A call that returns
-- 0 has succeeded; a patch that is not registered is not in force.
pub record Status : Type 0 where
  pub registered : Bool
  pub enabled : Bool

abbrev pub follow : Status → List Event → Status
follow st [] = st
follow st (klp_register_patch r ∷ es) =
    follow (if is_zero r then record { registered = true; enabled = false } else st) es
follow st (klp_enable_patch r ∷ es) =
    follow (if is_zero r then record st { enabled = true } else st) es
follow st (klp_unregister_patch r ∷ es) =
    follow (if is_zero r then record { registered = false; enabled = false } else st) es
follow st (_ ∷ es) = follow st es

abbrev pub absent : Status
absent = record { registered = false; enabled = false }

abbrev pub both : Bool → Status
both b = record { registered = b; enabled = b }

-- Where a registered patch that is not in force can be unregistered: `livepatch_init` ends, with 0
-- exactly if the patch is registered and enabled, and if it is not both, it is neither. It bypasses
-- the consistency model exactly if that was asked for or the architecture has none.
pub livepatch_init_status :
    (a : Answers) (s : State)
    → a.unregister_patch ≡ pos 0
    → (s' : State) × (ret : ℤ) × ((livepatch_init a s).outcome ≡ done (s', ret))
      × (is_zero ret ≡ (is_zero a.register_patch && is_zero a.enable_patch))
      × (follow absent (livepatch_init a s).calls ≡ both (is_zero ret))
      × (s'.immediate ≡ (s.immediate || not a.have_reliable_stack))
unfolding livepatch_init register_and_enable
livepatch_init_status a s u = (
  record s { immediate = s.immediate || not a.have_reliable_stack },
  (if is_zero a.register_patch
      then if is_zero a.enable_patch then pos 0 else a.enable_patch
      else a.register_patch),
  ground arith,
  ground arith,
  ground arith,
  refl,
)

-- What `klp_unregister_patch` promises: it refuses a patch that is in force with -EBUSY.
abbrev pub ebusy : ℤ
ebusy = negsuc 15

abbrev pub returned_for : Bool → ℤ
returned_for in_force = if in_force then ebusy else pos 0

-- A patch that is registered, and is in force or not.
abbrev pub registered_with : Bool → Status
registered_with in_force = record { registered = true; enabled = in_force }

-- `livepatch_exit` leaves a patch that is in force as it is, and unregisters one that is not.
pub livepatch_exit_status :
    (a : Answers) (in_force : Bool)
    → a.unregister_at_exit ≡ returned_for in_force
    → follow (registered_with in_force) (livepatch_exit a).calls ≡ both in_force
unfolding livepatch_exit
livepatch_exit_status a true u = rw u refl
livepatch_exit_status a false u = rw u refl
