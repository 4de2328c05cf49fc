-- ===== src/MirPath/Contexts.antt =====
-- `impl PAGPath for Rc<CSPath>`: the methods of a path, with the index of its context kept.
use rupta_fork.Base.{ℕ, ◌≡◌, refl, ap, ◌++◌, Option, some}
use mathlib.Core.Option
use rupta_fork.CallSite.{CsFuncId}
use rupta_fork.Strategy.{CsPath}
use rupta_fork.MirPath.{ProjectionElems, PathEnum}
use rupta_fork.MirPath.Create
use rupta_fork.MirPath.Project
use rupta_fork.MirPath.Valid.{IsPath, root, projection_of}
use rupta_fork.MirPath.Append.{append_projection-Appends}

module _ {DefId Location : Type 0} where
  -- `CSPath::new_cs_path`
  unfoldable pub new_cs_path : ℕ → PathEnum DefId Location → CsPath (PathEnum DefId Location)
  new_cs_path cid path = record { cid = cid; path = path }

  unfoldable pub new_parameter : CsFuncId → ℕ → CsPath (PathEnum DefId Location)
  unfolding new_cs_path
  new_parameter func ordinal = new_cs_path func.cid (Create.new_parameter func.func_id ordinal)

  unfoldable pub new_return_value : CsFuncId → CsPath (PathEnum DefId Location)
  unfolding new_cs_path
  new_return_value func = new_cs_path func.cid (Create.new_return_value func.func_id)

  unfoldable pub append_projection :
      CsPath (PathEnum DefId Location) → ProjectionElems → Option (CsPath (PathEnum DefId Location))
  unfolding new_cs_path
  append_projection p projection_elems =
      Option.map (new_cs_path p.cid) (Project.append_projection p.path projection_elems)

  unfoldable pub add_offset :
      CsPath (PathEnum DefId Location) → ℕ → Option (CsPath (PathEnum DefId Location))
  unfolding new_cs_path
  add_offset p offset = Option.map (new_cs_path p.cid) (Project.add_offset p.path offset)

  unfoldable pub dyn_ptr_metadata :
      CsPath (PathEnum DefId Location) → Option (CsPath (PathEnum DefId Location))
  unfolding new_cs_path
  dyn_ptr_metadata p = Option.map (new_cs_path p.cid) (Project.dyn_ptr_metadata p.path)

  unfoldable pub remove_cast :
      CsPath (PathEnum DefId Location) → Option (CsPath (PathEnum DefId Location))
  unfolding new_cs_path
  remove_cast p = Option.map (new_cs_path p.cid) (Project.remove_cast p.path)

  unfoldable pub get_containing_func : CsPath (PathEnum DefId Location) → Option CsFuncId
  get_containing_func p =
      Option.map (λ func_id. record { cid = p.cid; func_id = func_id })
        (Project.get_containing_func p.path)

  -- On a path with a context whose path is well formed, `append_projection` does not panic,
  -- and the result has the same context and the same root, its projection is the old one and
  -- then the new one, and it is in the same function.
  pub get_containing_func-append :
      (p : CsPath (PathEnum DefId Location)) (elems : ProjectionElems)
      → IsPath p.path
      → (q : CsPath (PathEnum DefId Location)) × (append_projection p elems ≡ some q)
        × (q.cid ≡ p.cid)
        × (root q.path ≡ root p.path)
        × (projection_of q.path ≡ projection_of p.path ++ elems)
        × (get_containing_func q ≡ get_containing_func p)
  unfolding append_projection get_containing_func new_cs_path
  get_containing_func-append p elems v =
      let (q, made, a) = append_projection-Appends p.path elems v in
      (
        record { cid = p.cid; path = q },
        ap (Option.map (new_cs_path p.cid)) made,
        refl,
        a.same_root,
        a.longer,
        ap
            (Option.map
              (λ (func_id : ℕ). let f : CsFuncId = record { cid = p.cid; func_id = func_id } in f))
            a.same_func,
      )
