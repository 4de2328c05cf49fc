-- ===== src/MirPath/Deref.antt =====
-- `is_deref_path`.
use rupta_fork.Base.{◌≡◌, refl, [], ◌∷◌, Bool, true, false, some, arith}
use rupta_fork.MirPath.{PathEnum, deref, index, local_variable, qualified_path, offset_path}
use rupta_fork.MirPath.Project.{is_deref_path}
use rupta_fork.MirPath.Valid.{IsPath}

module _ {DefId Location : Type 0} where
  -- `is_deref_path` does not panic on a path, and an append to a dereference is one.
  pub is_deref_path_total :
      (p : PathEnum DefId Location) → IsPath p → (b : Bool) × (is_deref_path p ≡ some b)
  unfolding is_deref_path
  is_deref_path_total (qualified_path base []) v = absurd (omega (arith, v.1))
  is_deref_path_total (qualified_path base (deref ∷ es)) v = (true, refl)
  is_deref_path_total (qualified_path base (index ∷ es)) v = (false, refl)
  is_deref_path_total (qualified_path base (e ∷ es)) v = (false, refl)
  is_deref_path_total (offset_path base offset) v = is_deref_path_total base v.2
  is_deref_path_total (local_variable f i) v = (false, refl)
  is_deref_path_total _ v = (false, refl)
